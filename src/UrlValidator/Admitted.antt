-- ===== src/UrlValidator/Admitted.antt =====
-- Which URLs the two validators admit.
use Prim.Native.String
use mathlib.Core.Option.{some-injective}
use nova_support.Base.{
  ◌≡◌, refl, sym, ap, ◌∙◌, ◌≢◌, ◌↔◌, ◌⊎◌, inl, inr, false, ◌||◌, Option, none, some, List, [], ◌∷◌,
  String, str_eq, any, All, Bool-cases, Option-cases, if◌then◌else◌,
}
use nova_support.UrlValidator.{
  Url, is_private_ip, first_private, check_addresses, validate_webhook_url, check_public,
  validate_public_url, resolves_to,
}
use nova_support.UrlValidator.Addresses.{bracketed_not_empty, is_private_ip_bracketed}

abbrev pub AllPublic : List String → Type 0
AllPublic ips = All (λ ip. is_private_ip ip ≡ false) ips

first_private_all : (ips : List String) → first_private ips ≡ none → AllPublic ips
unfolding first_private
first_private_all [] h = tt
first_private_all (ip ∷ ips) h = elim (Bool-cases (is_private_ip ip)) [
  | inl e ↦ cc (rw (e, first_private) at h)
  | inr e ↦ (e, first_private_all ips (rw (e, first_private) at h))
]

all_first_private : (ips : List String) → AllPublic ips → first_private ips ≡ none
unfolding first_private
all_first_private [] h = refl
all_first_private (ip ∷ ips) h = rw h.0 (all_first_private ips h.1)

any_private : (ips : List String) → any is_private_ip ips ≡ false → AllPublic ips
any_private [] h = tt
any_private (ip ∷ ips) h = elim (Bool-cases (is_private_ip ip)) [
  | inl e ↦ cc (rw e at h)
  | inr e ↦ (e, any_private ips (rw e at h))
]

-- The host has a name that matches no private pattern, and so do the addresses that it has.
abbrev pub Admits : (String → Option Url) → (String → Option (List String)) → String → Type 0
Admits parse resolve url =
    (u : Url) × (parse url ≡ some u)
    × (str_eq u.hostname "" ≡ false)
    × (is_private_ip u.hostname ≡ false)
    × ((resolve u.hostname ≡ none)
        ⊎ ((ips : List String) × (resolve u.hostname ≡ some ips) × AllPublic ips))

module _ (parse : String → Option Url) (resolve : String → Option (List String)) where
  check_addresses-none :
      (o : Option (List String))
      → check_addresses parse resolve o ≡ none
      → (o ≡ none) ⊎ ((ips : List String) × (o ≡ some ips) × AllPublic ips)
  unfolding check_addresses
  check_addresses-none none h = inl refl
  check_addresses-none (some ips) h = elim (Option-cases (first_private ips)) [
    | inl e ↦ inr (ips, refl, first_private_all ips e)
    | inr (ip, e) ↦ cc (rw (e, check_addresses) at h)
  ]

  none-check_addresses :
      (o : Option (List String))
      → (o ≡ none) ⊎ ((ips : List String) × (o ≡ some ips) × AllPublic ips)
      → check_addresses parse resolve o ≡ none
  unfolding check_addresses
  none-check_addresses o (inl e) = rw e refl
  none-check_addresses o (inr (ips, e, all)) =
      rw (e, check_addresses, all_first_private ips all) refl

  host_ok :
      (u : Url)
      → (if str_eq u.hostname ""
          then some "Invalid URL hostname"
          else if is_private_ip u.hostname
          then some (resolves_to u.hostname)
          else check_addresses parse resolve (resolve u.hostname))
        ≡ none
      → (str_eq u.hostname "" ≡ false)
        × (is_private_ip u.hostname ≡ false)
        × (check_addresses parse resolve (resolve u.hostname) ≡ none)
  host_ok u h = elim (Bool-cases (str_eq u.hostname "")) [
    | inl e ↦ cc (rw e at h)
    | inr e ↦ elim (Bool-cases (is_private_ip u.hostname)) [
      | inl f ↦ cc (rw (e, f) at h)
      | inr f ↦ (e, f, rw (e, f) at h)
    ]
  ]

  -- The webhook validator admits a URL exactly when it parses, its host has a name that matches no
  -- private pattern, and either the name does not resolve or none of its addresses matches one.
  pub validate_webhook_url_iff :
      (url : String) → (validate_webhook_url parse resolve url ≡ none) ↔ Admits parse resolve url
  unfolding validate_webhook_url
  validate_webhook_url_iff url = (
    λ h. elim (Option-cases (parse url)) [
      | inl e ↦ cc (rw (e, validate_webhook_url) at h)
      | inr (u, e) ↦
          let (named, public, resolved) = host_ok u (rw (e, validate_webhook_url) at h) in
          (u, e, named, public, check_addresses-none (resolve u.hostname) resolved)
    ],
    λ (u, e, named, public, resolved).
        rw (e, validate_webhook_url, named, public)
          (none-check_addresses (resolve u.hostname) resolved),
  )

  check_public-none :
      (o : Option (List String))
      → check_public parse resolve o ≡ none
      → (ips : List String) × (o ≡ some ips) × AllPublic ips
  unfolding check_public
  check_public-none none h = cc
  check_public-none (some ips) h = elim (Bool-cases (any is_private_ip ips)) [
    | inl e ↦ cc (rw (e, check_public) at h)
    | inr e ↦ (ips, refl, any_private ips e)
  ]

  public_ok :
      (u : Url)
      → (if str_eq u.protocol "http:" || str_eq u.protocol "https:"
          then if str_eq u.hostname ""
            then some "Invalid URL hostname"
            else if is_private_ip u.hostname
            then some "Private IP addresses are not allowed"
            else check_public parse resolve (resolve u.hostname)
          else some "Only HTTP and HTTPS URLs are allowed")
        ≡ none
      → (str_eq u.hostname "" ≡ false)
        × (is_private_ip u.hostname ≡ false)
        × (check_public parse resolve (resolve u.hostname) ≡ none)
  public_ok u h = elim (Bool-cases (str_eq u.protocol "http:" || str_eq u.protocol "https:")) [
    | inr d ↦ cc (rw d at h)
    | inl d ↦ elim (Bool-cases (str_eq u.hostname "")) [
      | inl e ↦ cc (rw (d, e) at h)
      | inr e ↦ elim (Bool-cases (is_private_ip u.hostname)) [
        | inl f ↦ cc (rw (d, e, f) at h)
        | inr f ↦ (e, f, rw (d, e, f) at h)
      ]
    ]
  ]

  -- What the body's sanitizer admits the webhook validator admits too, and then the name resolved to
  -- addresses of which none matches a private pattern.
  pub validate_public_url_stricter :
      (url : String)
      → validate_public_url parse resolve url ≡ none
      → (validate_webhook_url parse resolve url ≡ none)
        × ((u : Url) × (ips : List String) × (parse url ≡ some u)
            × (resolve u.hostname ≡ some ips)
            × AllPublic ips)
  unfolding validate_public_url
  validate_public_url_stricter url h = elim (Option-cases (parse url)) [
    | inl e ↦ cc (rw (e, validate_public_url) at h)
    | inr (u, e) ↦
        let (named, public, resolved) = public_ok u (rw (e, validate_public_url) at h) in
        let (ips, found, all) = check_public-none (resolve u.hostname) resolved in
        (
          (validate_webhook_url_iff url).1 (u, e, named, public, inr (ips, found, all)),
          (u, ips, e, found, all),
        )
  ]

  -- A URL whose host is an IPv6 literal, which `new URL` writes in brackets, is admitted by the
  -- webhook validator whenever the resolver has no answer for it, whatever the address, and the
  -- body's sanitizer rejects it.
  validate_webhook_url_bracketed :
      (url s : String) (u : Url)
      → parse url ≡ some u
      → u.hostname ≡ (Prim.Native.String.◌∷◌ "[" s)
      → resolve u.hostname ≡ none
      → (validate_webhook_url parse resolve url ≡ none)
        × (validate_public_url parse resolve url ≢ none)
  validate_webhook_url_bracketed url s u e host unresolved = (
    (validate_webhook_url_iff url).1 (
      u,
      e,
      ap (λ h. str_eq h "") host ∙ bracketed_not_empty s,
      ap is_private_ip host ∙ is_private_ip_bracketed s,
      inl unresolved,
    ),
    λ h.
        let (_, (v, ips, f, found, all)) = validate_public_url_stricter url h in
        unanswered v ips f found,
  )
    where
      unanswered :
          (v : Url) (ips : List String) → parse url ≡ some v → resolve v.hostname ≡ some ips → ⊥
      unanswered v ips f found =
          let same : u ≡ v = some-injective u v (sym e ∙ f) in
          cc (sym unresolved ∙ ap (λ (w : Url). resolve w.hostname) same ∙ found)
