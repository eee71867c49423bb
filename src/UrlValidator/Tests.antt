-- ===== src/UrlValidator/Tests.antt =====
-- Addresses and URLs at the validators.

use nova_support.Base.{
  ◌≡◌, ◌↔◌, refl, true, false, Option, none, some, List, [], ◌∷◌, String, str_eq, if◌then◌else◌,
}
use nova_support.UrlValidator.{Url, is_private_ip, validate_webhook_url, validate_public_url}
use nova_support.UrlValidator.Admitted.{
  Admits, AllPublic, validate_webhook_url_iff, validate_public_url_stricter,
}

private_172 : is_private_ip "172.31.0.1" ≡ true
unfolding is_private_ip
private_172 = refl

public_172 : is_private_ip "172.32.0.1" ≡ false
unfolding is_private_ip
public_172 = refl

-- Unspecified and unique local addresses that the patterns do not list.
unlisted : (is_private_ip "0.0.0.0" ≡ false) × (is_private_ip "fd12::1" ≡ false)
unfolding is_private_ip
unlisted = (refl, refl)

abbrev parse : String → Option Url
parse url =
    if str_eq url "https://hooks.example/x"
    then some (record { protocol = "https:"; hostname = "hooks.example" })
    else if str_eq url "https://[::1]/x"
    then some (record { protocol = "https:"; hostname = "[::1]" })
    else none

abbrev resolve : String → Option (List String)
resolve host = if str_eq host "hooks.example" then some ("93.184.216.34" ∷ []) else none

validate_webhook_url_iff_example :
    (validate_webhook_url parse resolve "https://hooks.example/x" ≡ none)
    ↔ Admits parse resolve "https://hooks.example/x"
validate_webhook_url_iff_example = validate_webhook_url_iff parse resolve "https://hooks.example/x"

public_answer : validate_public_url parse resolve "https://hooks.example/x" ≡ none
unfolding validate_public_url
public_answer = refl

validate_public_url_stricter_example :
    (validate_webhook_url parse resolve "https://hooks.example/x" ≡ none)
    × ((u : Url) × (ips : List String) × (parse "https://hooks.example/x" ≡ some u)
        × (resolve u.hostname ≡ some ips)
        × AllPublic ips)
validate_public_url_stricter_example =
    validate_public_url_stricter parse resolve "https://hooks.example/x" public_answer
