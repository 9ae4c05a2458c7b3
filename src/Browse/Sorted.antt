-- ===== src/Browse/Sorted.antt =====
-- What a browse gets from the provider (src/ccreport/browse.py).
use mathlib.Core.List.{Perm}
use mathlib.Core.List.Perm
use ccreport.Prelude.{
  ℕ, ◌≤◌, ◌≡◌, refl, ◌∙◌, Bool, true, Option, none, List, [], ◌∷◌, map, arith, keep, keep-All, All,
  All-map, leb, leb→le, Bool-cases, inl, inr,
}
use ccreport.Prelude.Texts.{Text}
use ccreport.Errors.{Result, ok, err, Result-cases}
use ccreport.Connectors.{MessageHeader}
use ccreport.Filters.{header_matches, score_message}
use ccreport.Period.Calendar.{DateTime, earlier}
use ccreport.Browse.{
  Headers, Request, Settings, time_of, insert_header, newest_first, query_of, check_query, scored,
  fetch,
}

-- The times descend; a message without a time counts as of the start of the month.
abbrev pub Descending : ℕ → Headers → Type 0
Descending start [] = Unit
Descending start (h ∷ hs) = All (λ g. time_of start g ≤ time_of start h) hs × Descending start hs

insert_header-Perm :
    (start : ℕ) (x : MessageHeader) (hs : Headers) → Perm (insert_header start x hs) (x ∷ hs)
unfolding insert_header
insert_header-Perm start x [] = Perm.rfl
insert_header-Perm start x (y ∷ ys) = elim (Bool-cases (leb (time_of start y) (time_of start x))) [
  | inl first ↦ rw first Perm.rfl
  | inr later ↦
      rw later (Perm.trans (Perm.cons y (insert_header-Perm start x ys)) (Perm.swap x y ys))
]

newest_first-Perm : (start : ℕ) (hs : Headers) → Perm (newest_first start hs) hs
unfolding newest_first
newest_first-Perm start [] = Perm.rfl
newest_first-Perm start (x ∷ xs) =
    Perm.trans (insert_header-Perm start x (newest_first start xs))
      (Perm.cons x (newest_first-Perm start xs))

All-insert_header :
    (P : MessageHeader → Type 0) (start : ℕ) (x : MessageHeader) (hs : Headers)
    → P x
    → All P hs
    → All P (insert_header start x hs)
unfolding insert_header
All-insert_header P start x [] p h = (p, tt)
All-insert_header P start x (y ∷ ys) p h =
    elim (Bool-cases (leb (time_of start y) (time_of start x))) [
      | inl first ↦ rw first (p, h)
      | inr later ↦ rw later (h.0, All-insert_header P start x ys p h.1)
    ]

All-newest_first :
    (P : MessageHeader → Type 0) (start : ℕ) (hs : Headers)
    → All P hs
    → All P (newest_first start hs)
unfolding newest_first
All-newest_first P start [] h = tt
All-newest_first P start (x ∷ xs) h =
    All-insert_header P start x (newest_first start xs) h.0 (All-newest_first P start xs h.1)

insert_header-Descending :
    (start : ℕ) (x : MessageHeader) (hs : Headers)
    → Descending start hs
    → Descending start (insert_header start x hs)
unfolding insert_header
insert_header-Descending start x [] h = (tt, tt)
insert_header-Descending start x (y ∷ ys) h =
    elim (Bool-cases (leb (time_of start y) (time_of start x))) [
      | inl first ↦
          let le = leb→le (time_of start y) (time_of start x) first in
          rw first ((le, All-map _ _ (λ g below. omega (arith, below, le)) ys h.0), h)
      | inr later ↦
          let le : time_of start x ≤ time_of start y = ground (arith, later) in
          rw later (
            All-insert_header (λ g. time_of start g ≤ time_of start y) start x ys le h.0,
            insert_header-Descending start x ys h.1,
          )
    ]

newest_first-Descending : (start : ℕ) (hs : Headers) → Descending start (newest_first start hs)
unfolding newest_first
newest_first-Descending start [] = tt
newest_first-Descending start (x ∷ xs) =
    insert_header-Descending start x (newest_first start xs) (newest_first-Descending start xs)

-- Scoring leaves alone what the conditions look at.
header_matches-score :
    (subject sender body : Option Text) (vendors : List (Text × Text)) (h : MessageHeader)
    → header_matches subject sender (score_message vendors body h) ≡ header_matches subject sender h
unfolding header_matches score_message
header_matches-score subject sender body vendors h = refl

All-map_to :
    {A B : Type 0} (P : A → Type 0) (Q : B → Type 0) (f : A → B)
    → ((a : A) → P a → Q (f a))
    → (xs : List A) → All P xs
    → All Q (map f xs)
All-map_to P Q f g [] h = tt
All-map_to P Q f g (x ∷ xs) h = (g x h.0, All-map_to P Q f g xs h.1)

module _ (settings : Settings) (request : Request) where
  -- the test that the found headers have to pass
  abbrev pub asked_for : MessageHeader → Bool
  asked_for h = header_matches request.subject_contains request.from_contains h

  -- These headers are the found ones that were asked for, each scored, the newest first.
  pub record IsAnswer (start : ℕ) (found headers : Headers) : Type 0 where
    pub same : Perm headers (map (score_message settings.vendors none) (keep asked_for found))
    pub newest : Descending start headers
    pub matching : All (λ h. asked_for h ≡ true) headers

  scored-IsAnswer :
      (start : ℕ) (found : Headers) → IsAnswer start found (scored settings request start found)
  unfolding scored
  scored-IsAnswer start found =
      let kept = keep asked_for found in
      let hints = map (score_message settings.vendors none) kept in
      let fit : All (λ h. asked_for h ≡ true) hints =
        All-map_to (λ h. asked_for h ≡ true) (λ h. asked_for h ≡ true)
          (score_message settings.vendors none)
          (λ h hit.
            header_matches-score request.subject_contains request.from_contains none
              settings.vendors h
            ∙ hit)
          kept (keep-All asked_for found) in
      record {
        same = newest_first-Perm start hints;
        newest = newest_first-Descending start hints;
        matching = All-newest_first (λ h. asked_for h ≡ true) start hints fit;
      }

  -- What becomes of the provider's answer.
  abbrev pub IsFetch : ℕ → Result Headers → Result Headers → Type 0
  IsFetch start (err e) fetched = fetched ≡ err e
  IsFetch start (ok found) fetched =
      (headers : Headers) × (fetched ≡ ok headers) × IsAnswer start found headers

  -- For bounds that lie in order, the headers that a browse gets from the provider are those that the
  -- provider found and that meet the conditions on subject and sender, all of them and each as often as it
  -- was found, with their scores, the newest first; if the provider raises, so does the browse.
  pub fetch_lem :
      (start end : DateTime)
      → earlier start end ≡ true
      → IsFetch
          (settings.instant start)
          (settings.search (query_of request start end))
          (fetch settings request start end)
  unfolding fetch check_query
  fetch_lem start end order =
      let at = settings.instant start in
      elim (Result-cases (settings.search (query_of request start end))) [
        | inl (e, raised) ↦ rw (order, raised) refl
        | inr (found, answered) ↦
            rw (order, answered) (scored settings request at found, refl, scored-IsAnswer at found)
      ]
