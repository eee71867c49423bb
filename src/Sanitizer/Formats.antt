-- ===== src/Sanitizer/Formats.antt =====
-- The social handles that sanitizeSocialHandle lets through.
use nova_support.Base.{
  ℕ, zero, suc, ◌≤◌, ◌≡◌, refl, ◌⊎◌, inl, inr, Bool, true, false, ◌&&◌, not, [], ◌∷◌, arith, ◌==◌,
  leb, length, length-take, filter, take, Bool-cases, le→leb,
}
use nova_support.Sanitizer.Units.{
  join_unless, Text, every, drop_start, drop_end, strip_ends, is_alnum, trim,
}
use nova_support.Sanitizer.{
  without_at, is_twitter, is_github, is_dot_or_hyphen, is_twitter_handle, is_github_handle,
  github_rest, github_pattern, check_handle, sanitize_social_handle,
}

every-filter : (p : ℕ → Bool) (t : Text) → every p (filter p t) ≡ true
every-filter p [] = refl
every-filter p (c ∷ cs) = elim (Bool-cases (p c)) [
  | inl e ↦ rw (e, e) (every-filter p cs)
  | inr e ↦ rw e (every-filter p cs)
]

every-take : (p : ℕ → Bool) (n : ℕ) (t : Text) → every p t ≡ true → every p (take n t) ≡ true
every-take p zero t h = refl
every-take p (suc n) [] h = refl
every-take p (suc n) (c ∷ cs) h = elim (Bool-cases (p c)) [
  | inl e ↦ rw e (every-take p n cs (rw e at h))
  | inr e ↦ cc (rw e at h)
]

abbrev not_first : (ℕ → Bool) → Text → Bool
not_first q [] = true
not_first q (c ∷ cs) = not (q c)

abbrev not_last : (ℕ → Bool) → Text → Bool
not_last q [] = true
not_last q (c ∷ []) = not (q c)
not_last q (c ∷ d ∷ ds) = not_last q (d ∷ ds)

module _ (q : ℕ → Bool) where
  drop_start-every : (p : ℕ → Bool) (t : Text) → every p t ≡ true → every p (drop_start q t) ≡ true
  unfolding drop_start
  drop_start-every p [] h = refl
  drop_start-every p (c ∷ cs) h = elim (Bool-cases (p c)) [
    | inr e ↦ cc (rw e at h)
    | inl e ↦ elim (Bool-cases (q c)) [
      | inl f ↦ rw f (drop_start-every p cs (rw e at h))
      | inr f ↦ rw f h
    ]
  ]

  drop_start-length : (t : Text) → length (drop_start q t) ≤ length t
  unfolding drop_start
  drop_start-length [] = omega arith
  drop_start-length (c ∷ cs) = ground (arith, drop_start-length cs)

  drop_start-not_first : (t : Text) → not_first q (drop_start q t) ≡ true
  unfolding drop_start
  drop_start-not_first [] = refl
  drop_start-not_first (c ∷ cs) = elim (Bool-cases (q c)) [
    | inl e ↦ rw e (drop_start-not_first cs)
    | inr e ↦ rw (e, e) refl
  ]

  join_unless-every :
      (p : ℕ → Bool) (c : ℕ) (t : Text)
      → p c ≡ true
      → every p t ≡ true
      → every p (join_unless q c t) ≡ true
  join_unless-every p c [] h k = elim (Bool-cases (q c)) [
    | inl e ↦ rw e refl
    | inr e ↦ rw e (rw h refl)
  ]
  join_unless-every p c (d ∷ ds) h k = rw h k

  join_unless-not_last :
      (c : ℕ) (t : Text) → not_last q t ≡ true → not_last q (join_unless q c t) ≡ true
  join_unless-not_last c [] h = elim (Bool-cases (q c)) [
    | inl e ↦ rw e refl
    | inr e ↦ rw e (rw e refl)
  ]
  join_unless-not_last c (d ∷ ds) h = h

  join_unless-not_first : (c : ℕ) (t : Text) → q c ≡ false → not_first q (join_unless q c t) ≡ true
  join_unless-not_first c [] h = rw h (rw h refl)
  join_unless-not_first c (d ∷ ds) h = rw h refl

  join_unless-length : (c : ℕ) (t : Text) → length (join_unless q c t) ≤ suc (length t)
  join_unless-length c [] = ground arith
  join_unless-length c (d ∷ ds) = omega arith

  drop_end-every : (p : ℕ → Bool) (t : Text) → every p t ≡ true → every p (drop_end q t) ≡ true
  unfolding drop_end
  drop_end-every p [] h = refl
  drop_end-every p (c ∷ cs) h = elim (Bool-cases (p c)) [
    | inr e ↦ cc (rw e at h)
    | inl e ↦ join_unless-every p c (drop_end q cs) e (drop_end-every p cs (rw e at h))
  ]

  drop_end-not_last : (t : Text) → not_last q (drop_end q t) ≡ true
  unfolding drop_end
  drop_end-not_last [] = refl
  drop_end-not_last (c ∷ cs) = join_unless-not_last c (drop_end q cs) (drop_end-not_last cs)

  drop_end-not_first : (t : Text) → not_first q t ≡ true → not_first q (drop_end q t) ≡ true
  unfolding drop_end
  drop_end-not_first [] h = refl
  drop_end-not_first (c ∷ cs) h = join_unless-not_first c (drop_end q cs) (not_true (q c) h)
    where
      not_true : (b : Bool) → not b ≡ true → b ≡ false
      not_true true k = cc
      not_true false k = refl

  drop_end-length : (t : Text) → length (drop_end q t) ≤ length t
  unfolding drop_end
  drop_end-length [] = omega arith
  drop_end-length (c ∷ cs) = omega (arith, drop_end-length cs, join_unless-length c (drop_end q cs))

alnum_end : (c : ℕ) → is_github c ≡ true → not (is_dot_or_hyphen c) ≡ true → is_alnum c ≡ true
alnum_end c h k = ground arith

every_cons :
    (p : ℕ → Bool) (c : ℕ) (cs : Text)
    → every p (c ∷ cs) ≡ true
    → (p c ≡ true) × (every p cs ≡ true)
every_cons p c cs h = elim (Bool-cases (p c)) [ inl e ↦ (e, rw e at h) | inr e ↦ cc (rw e at h) ]

github_rest_lem :
    (t : Text)
    → every is_github t ≡ true
    → not_last is_dot_or_hyphen t ≡ true
    → github_rest t ≡ true
github_rest_lem [] h k = refl
github_rest_lem (c ∷ []) h k = alnum_end c (every_cons is_github c [] h).0 k
github_rest_lem (c ∷ d ∷ ds) h k =
    let (head, tail) = every_cons is_github c (d ∷ ds) h in
    rw head (github_rest_lem (d ∷ ds) tail k)

github_pattern_lem :
    (t : Text)
    → every is_github t ≡ true
    → not_first is_dot_or_hyphen t ≡ true
    → not_last is_dot_or_hyphen t ≡ true
    → (t ≡ []) ⊎ (github_pattern t ≡ true)
github_pattern_lem [] h f l = inl refl
github_pattern_lem (c ∷ []) h f l = inr (rw (alnum_end c (every_cons is_github c [] h).0 f) refl)
github_pattern_lem (c ∷ d ∷ ds) h f l =
    let (head, tail) = every_cons is_github c (d ∷ ds) h in
    inr (rw (alnum_end c head f) (github_rest_lem (d ∷ ds) tail l))

take_le : (n : ℕ) (t : Text) → length (take n t) ≤ n
take_le n t = omega (arith, length-take n t)

abbrev pub ValidTwitter : Text → Type 0
ValidTwitter t = (t ≡ []) ⊎ (is_twitter_handle t ≡ true)

abbrev pub ValidGithub : Text → Type 0
ValidGithub t = (t ≡ []) ⊎ (is_github_handle t ≡ true)

twitter_cases : (t : Text) → length t ≤ 15 → every is_twitter t ≡ true → ValidTwitter t
twitter_cases [] le h = inl refl
twitter_cases (c ∷ cs) le h = inr (rw h (between (length cs) le))
  where
    between : (n : ℕ) → suc n ≤ 15 → (leb 1 (suc n) && leb (suc n) 15 && true) ≡ true
    between n k = ground arith

github_cases : (t : Text) → length t ≤ 39 → (t ≡ []) ⊎ (github_pattern t ≡ true) → ValidGithub t
github_cases t le (inl e) = inl e
github_cases t le (inr e) = inr (rw (e, le→leb (length t) 39 le) refl)

strip_ends-ValidGithub :
    (t : Text)
    → length t ≤ 39
    → every is_github t ≡ true
    → ValidGithub (strip_ends is_dot_or_hyphen t)
unfolding strip_ends
strip_ends-ValidGithub t le h =
    let q = is_dot_or_hyphen in
    let start = drop_start q t in
    github_cases (drop_end q start)
      (omega (arith, le, drop_start-length q t, drop_end-length q start))
      (github_pattern_lem (drop_end q start)
        (drop_end-every q is_github start (drop_start-every q is_github t h))
        (drop_end-not_first q start (drop_start-not_first q t)) (drop_end-not_last q start))

check_handle-ValidTwitter : (t : Text) → ValidTwitter (check_handle "twitterHandle" t).0
unfolding check_handle
check_handle-ValidTwitter t = elim (Bool-cases (is_twitter_handle t)) [
  | inl e ↦ rw e (inr e)
  | inr e ↦ rw e (
      twitter_cases (take 15 (filter is_twitter t)) (take_le 15 (filter is_twitter t))
        (every-take is_twitter 15 (filter is_twitter t) (every-filter is_twitter t)))
]

check_handle-ValidGithub : (t : Text) → ValidGithub (check_handle "githubHandle" t).0
unfolding check_handle
check_handle-ValidGithub t = elim (Bool-cases (is_github_handle t)) [
  | inl e ↦ rw e (inr e)
  | inr e ↦ rw e (
      strip_ends-ValidGithub (take 39 (filter is_github t)) (take_le 39 (filter is_github t))
        (every-take is_github 39 (filter is_github t) (every-filter is_github t)))
]

-- Whatever the client sends, the handle that comes out is empty or has the format of its platform:
-- 1 to 15 letters, digits and underscores for Twitter; for GitHub 1 to 39 letters, digits, hyphens
-- and points with a letter or a digit at both ends.
pub sanitize_social_handle-Valid :
    (handle : Text)
    → ValidTwitter (sanitize_social_handle "twitterHandle" handle).0
      × ValidGithub (sanitize_social_handle "githubHandle" handle).0
unfolding sanitize_social_handle
sanitize_social_handle-Valid handle = elim (Bool-cases (length (trim handle) == 0)) [
  | inl e ↦ rw e (inl refl, inl refl)
  | inr e ↦ rw e (
    check_handle-ValidTwitter (without_at (trim handle)),
    check_handle-ValidGithub (without_at (trim handle)),
  )
]
