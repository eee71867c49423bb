-- ===== src/UrlValidator/Addresses.antt =====
-- The patterns of private addresses on the host names that `new URL` gives for IPv6 literals.
use Prim.Native.Char.{code}
use Prim.Native.String.{[], ◌∷◌}
use nova_support.Base.{
  ℕ, ◌≡◌, ◌≢◌, refl, ap, inl, inr, false, String, str_eq, eq_iff, arith, Bool-cases,
}
use nova_support.UrlValidator.{is_private_ip}

first_code : String → ℕ
first_code [] = 0
first_code (c ∷ s) = code c

str_eq_ne : (s t : String) → first_code s ≢ first_code t → str_eq s t ≡ false
str_eq_ne s t ne = elim (Bool-cases (str_eq s t)) [
  | inl e ↦ absurd (ne (ap first_code ((eq_iff s t).0 e)))
  | inr e ↦ e
]

pub bracketed_not_empty : (s : String) → str_eq ("[" ∷ s) "" ≡ false
unfolding first_code
bracketed_not_empty s = str_eq_ne ("[" ∷ s) "" (λ e. absurd (omega arith))

-- No pattern matches a text that starts with a bracket.
pub is_private_ip_bracketed : (s : String) → is_private_ip ("[" ∷ s) ≡ false
unfolding is_private_ip first_code
is_private_ip_bracketed s = rw (str_eq_ne ("[" ∷ s) "::1" (λ e. absurd (omega arith))) refl
