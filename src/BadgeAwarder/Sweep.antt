-- ===== src/BadgeAwarder/Sweep.antt =====
-- The pages of the badge sweep (sweepBadges).
use mathlib.Core.Path.{subst}
use mathlib.Core.List.{append-nil, append_assoc}
use nova_support.Base.{
  ℕ, zero, suc, ◌+◌, ◌*◌, ◌<◌, ◌≤◌, ◌≡◌, ◌≢◌, ap, sym, ◌∙◌, refl, true, false, Option, none, some,
  List, [], ◌∷◌, ◌++◌, String, arith, All, length, take, eq_iff, ◌==◌, Bool-cases, inl, inr,
  length-append,
}
use nova_support.BadgeAwarder.{
  behind, page_after, last_of, sweep_pages, sweep_badges, badge_sweep_batch_size,
}

-- No id of the list is there twice, and none is empty.
abbrev pub Ids : List String → Type 0
Ids [] = Unit
Ids (p ∷ ps) = (p ≢ "") × All (λ q. p ≢ q) ps × Ids ps

-- The ids of the pages that were read, the cursor being the last of them.
abbrev Read : List String → Option String → List String → Type 0
Read ps none rest = rest ≡ ps
Read ps (some c) rest = (c ≢ "") × (behind c ps ≡ rest)

behind-append :
    (c : String) (done rest : List String)
    → All (λ p. p ≢ c) done
    → behind c (done ++ (c ∷ rest)) ≡ rest
behind-append c [] rest h = ground (arith, eq_iff c c)
behind-append c (p ∷ done) rest h = ground (arith, eq_iff p c, behind-append c done rest h.1, h.0)

page_after-Read :
    (ps : List String) (cursor : Option String) (rest : List String)
    → Read ps cursor rest
    → page_after cursor ps ≡ take badge_sweep_batch_size rest
page_after-Read ps none rest h = ap (take badge_sweep_batch_size) (sym h)
page_after-Read ps (some c) rest (ne, e) =
    ground (arith, eq_iff c "", ap (take badge_sweep_batch_size) e)

All-middle : (x c : String) (xs rest : List String) → All (λ q. x ≢ q) (xs ++ (c ∷ rest)) → x ≢ c
All-middle x c [] rest h = h.0
All-middle x c (y ∷ xs) rest h = All-middle x c xs rest h.1

Ids-middle :
    (xs : List String) (c : String) (rest : List String)
    → Ids (xs ++ (c ∷ rest))
    → All (λ p. p ≢ c) xs × (c ≢ "")
Ids-middle [] c rest h = (tt, h.0)
Ids-middle (x ∷ xs) c rest h =
    let (filled, apart, ids) = h in
    let (a, n) = Ids-middle xs c rest ids in ((All-middle x c xs rest apart, a), n)

-- The list before its last element.
abbrev before_last : String → List String → List String
before_last p [] = []
before_last p (q ∷ ps) = p ∷ before_last q ps

before_last-append :
    (p : String) (ps rest : List String)
    → before_last p ps ++ (last_of p ps ∷ rest) ≡ p ∷ (ps ++ rest)
before_last-append p [] rest = refl
before_last-append p (q ∷ ps) rest = ap (◌∷◌ p) (before_last-append q ps rest)

take_all : (n : ℕ) (xs : List String) → length xs ≤ n → take n xs ≡ xs
take_all zero [] h = refl
take_all zero (x ∷ xs) h = absurd (omega (arith, h))
take_all (suc n) [] h = refl
take_all (suc n) (x ∷ xs) h = ap (◌∷◌ x) (take_all n xs (omega (arith, h)))

Read-last :
    (done : List String) (p : String) (page rest : List String)
    → Ids (done ++ (p ∷ (page ++ rest)))
    → Read (done ++ (p ∷ (page ++ rest))) (some (last_of p page)) rest
Read-last done p page rest h =
    let e : done ++ (p ∷ (page ++ rest)) ≡ (done ++ before_last p page) ++ (last_of p page ∷ rest) =
      ap (◌++◌ done) (sym (before_last-append p page rest))
      ∙ sym (append_assoc done (before_last p page) (last_of p page ∷ rest)) in
    let (a, n) = Ids-middle (done ++ before_last p page) (last_of p page) rest (subst Ids e h) in
    (
      n,
      ap (behind (last_of p page)) e
          ∙ behind-append (last_of p page) (done ++ before_last p page) rest a,
    )

-- A fuel that reads to the end whatever lies behind a cursor.
abbrev Enough : ℕ → Type 0
Enough fuel =
    (done rest : List String) (cursor : Option String)
    → Ids (done ++ rest)
    → Read (done ++ rest) cursor rest
    → length rest < fuel * badge_sweep_batch_size
    → sweep_pages fuel cursor (done ++ rest) ≡ some rest

sweep_full :
    (fuel : ℕ) (cursor : Option String) (p : String) (page more ps : List String)
    → page_after cursor ps ≡ p ∷ page
    → (length (p ∷ page) == badge_sweep_batch_size) ≡ true
    → sweep_pages fuel (some (last_of p page)) ps ≡ some more
    → sweep_pages (suc fuel) cursor ps ≡ some (p ∷ (page ++ more))
unfolding sweep_pages
sweep_full fuel cursor p page more ps e full h = rw (e, full, h, sweep_pages) refl

sweep_short :
    (fuel : ℕ) (cursor : Option String) (p : String) (page ps : List String)
    → page_after cursor ps ≡ p ∷ page
    → (length (p ∷ page) == badge_sweep_batch_size) ≡ false
    → sweep_pages (suc fuel) cursor ps ≡ some (p ∷ page)
unfolding sweep_pages
sweep_short fuel cursor p page ps e short = rw (e, short, sweep_pages) refl

under :
    (n : ℕ)
    → (n == badge_sweep_batch_size) ≡ false
    → n ≤ badge_sweep_batch_size
    → n < badge_sweep_batch_size
under n short le = ground (arith, short, le)

fewer :
    (fuel n m : ℕ)
    → (suc n == badge_sweep_batch_size) ≡ true
    → suc (n + m) < suc fuel * badge_sweep_batch_size
    → m < fuel * badge_sweep_batch_size
fewer fuel n m full lt = ground (arith, full, lt)

Enough-suc :
    (fuel : ℕ) (done page more : List String) (p : String) (cursor : Option String)
    → Enough fuel
    → Ids (done ++ (p ∷ (page ++ more)))
    → page_after cursor (done ++ (p ∷ (page ++ more))) ≡ p ∷ page
    → (length (p ∷ page) < badge_sweep_batch_size → more ≡ [])
    → length (p ∷ page) ≤ badge_sweep_batch_size
    → length (p ∷ (page ++ more)) < suc fuel * badge_sweep_batch_size
    → sweep_pages (suc fuel) cursor (done ++ (p ∷ (page ++ more))) ≡ some (p ∷ (page ++ more))
Enough-suc fuel done page more p cursor enough ids at last le lt =
    let ps = done ++ (p ∷ (page ++ more)) in
    elim (Bool-cases (length (p ∷ page) == badge_sweep_batch_size)) [
      | inr short ↦
          sweep_short fuel cursor p page ps at short
          ∙ ap (λ xs. some (p ∷ xs))
              (sym (append-nil page)
                ∙ ap (◌++◌ page) (sym (last (under (suc (length page)) short le))))
      | inl full ↦
          let e : (done ++ (p ∷ page)) ++ more ≡ ps = append_assoc done (p ∷ page) more in
          let read = Read-last done p page more ids in
          sweep_full fuel cursor p page more ps at full (
            subst (λ xs. sweep_pages fuel (some (last_of p page)) xs ≡ some more) e
              (enough (done ++ (p ∷ page)) more (some (last_of p page)) (subst Ids (sym e) ids)
                (subst (λ xs. Read xs (some (last_of p page)) more) (sym e) read)
                (fewer fuel (length page) (length more) full (
                  subst (λ n. suc n < suc fuel * badge_sweep_batch_size) (length-append page more)
                    lt))))
    ]

split :
    (n : ℕ) (xs : List String)
    → (page more : List String) × (xs ≡ page ++ more)
      × (take n xs ≡ page)
      × (length page < n → more ≡ [])
      × (length page ≤ n)
split zero xs = ([], xs, refl, refl, (λ lt. absurd (omega (arith, lt))), omega arith)
split (suc n) [] = ([], [], refl, refl, (λ lt. refl), omega arith)
split (suc n) (x ∷ xs) =
    let (page, more, e, t, last, le) = split n xs in
    (
      x ∷ page,
      more,
      ap (◌∷◌ x) e,
      ap (◌∷◌ x) t,
      (λ lt. last (omega (arith, lt))),
      omega (arith, le),
    )

enough : (fuel : ℕ) → Enough fuel
unfolding sweep_pages
enough zero done rest cursor ids read lt = absurd (omega (arith, lt))
enough (suc fuel) done [] cursor ids read lt =
    rw (page_after-Read (done ++ []) cursor [] read, sweep_pages) refl
enough (suc fuel) done (p ∷ rest) cursor ids read lt =
    let (page, more, e, t, last, le) = split 99 rest in
    subst (λ r. sweep_pages (suc fuel) cursor (done ++ (p ∷ r)) ≡ some (p ∷ r)) (sym e)
      (Enough-suc fuel done page more p cursor (enough fuel)
        (subst (λ r. Ids (done ++ (p ∷ r))) e ids)
        (subst (λ r. page_after cursor (done ++ (p ∷ r)) ≡ p ∷ page) e
          (page_after-Read (done ++ (p ∷ rest)) cursor (p ∷ rest) read ∙ ap (◌∷◌ p) t))
        (λ lt. last (omega (arith, lt))) (omega (arith, le))
        (subst (λ r. length (p ∷ r) < suc fuel * badge_sweep_batch_size) e lt))

-- A sweep over any number of profiles, with distinct ids that are not empty, checks every one of
-- them once, in their order, and stops: any bound on the number of its pages is enough that is above
-- a hundredth of the number of profiles.
pub sweep_badges_visits :
    (ps : List String) (fuel : ℕ)
    → Ids ps
    → length ps < fuel * badge_sweep_batch_size
    → sweep_badges fuel ps ≡ some ps
unfolding sweep_badges
sweep_badges_visits ps fuel ids lt = enough fuel [] ps none ids refl lt
