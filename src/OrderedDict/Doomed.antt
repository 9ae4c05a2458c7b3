-- ===== src/OrderedDict/Doomed.antt =====
-- Deleting from a dictionary while its keys are walked over: what the loops leave.
use mathlib.Core.Path.{subst}
use mathlib.Core.Logic.{if_neg}
use ccreport.Prelude.{
  ◌∙◌, ℕ, zero, suc, ◌+◌, ◌-◌, ◌≡◌, ◌≢◌, refl, ap, sym, Bool, true, false, not, Option, none, some,
  List, [], ◌∷◌, arith, if◌then◌else◌, length, keep, drop, map, Bool-cases, inl, inr, All,
}
use ccreport.OrderedDict.{lookup, delete, IsDict, lookup_head, lookup_tail, delete_head}

-- the keys of the entries that pass a test: `[k for k, v in d.items() if test(k, v)]`
unfoldable pub doomed_keys {ℓ} : {K V : Type ℓ} → (K × V → Bool) → List (K × V) → List K
doomed_keys test d = map (λ e. e.0) (keep test d)

module _ {ℓ} {K V : Type ℓ} (dec : Discrete K) where
  -- `for key in doomed: del d[key]`
  unfoldable pub delete_all : List K → List (K × V) → List (K × V)
  delete_all [] d = d
  delete_all (key ∷ doomed) d = delete_all doomed (delete dec key d)

  pub length-drop : (n : ℕ) (d : List (K × V)) → length (drop n d) ≡ length d - n
  length-drop zero d = omega arith
  length-drop (suc n) [] = omega arith
  length-drop (suc n) (e ∷ d) = omega (arith, length-drop n d)

  pub drop-IsDict : (n : ℕ) (d : List (K × V)) → IsDict dec d → IsDict dec (drop n d)
  drop-IsDict zero d h = h
  drop-IsDict (suc n) [] h = h
  drop-IsDict (suc n) (e ∷ d) h = drop-IsDict n d h.1

  -- Whatever is found after entries were dropped was there before.
  pub lookup-drop :
      (n : ℕ) (k : K) (d : List (K × V)) {e : V}
      → IsDict dec d
      → lookup dec k (drop n d) ≡ some e
      → lookup dec k d ≡ some e
  unfolding lookup
  lookup-drop zero k d h f = f
  lookup-drop (suc n) k [] h f = f
  lookup-drop (suc n) k (x ∷ d) {e} h f =
      let found = lookup-drop n k d {e = e} h.1 f in
      elim (dec x.0 k) [ yes p ↦ absurd (ground arith) | no p ↦ rw (if_neg _ p) found ]

  -- Deleting keys that an entry does not have leaves it in its place.
  delete_all_skip :
      (ks : List K) (k : K) (e : V) (d : List (K × V))
      → All (λ j. k ≢ j) ks
      → delete_all ks ((k, e) ∷ d) ≡ (k, e) ∷ delete_all ks d
  unfolding delete_all delete
  delete_all_skip [] k e d h = refl
  delete_all_skip (j ∷ ks) k e d h = rw (if_neg (dec k j) h.0) (delete_all_skip ks k e _ h.1)

  doomed_keys_hit :
      (test : K × V → Bool) (e : K × V) (d : List (K × V))
      → test e ≡ true
      → doomed_keys test (e ∷ d) ≡ e.0 ∷ doomed_keys test d
  unfolding doomed_keys
  doomed_keys_hit test e d h = rw h

  doomed_keys_miss :
      (test : K × V → Bool) (e : K × V) (d : List (K × V))
      → test e ≡ false
      → doomed_keys test (e ∷ d) ≡ doomed_keys test d
  unfolding doomed_keys
  doomed_keys_miss test e d h = rw h

  doomed_absent :
      (test : K × V → Bool) (k : K) (d : List (K × V))
      → lookup dec k d ≡ none
      → All (λ j. k ≢ j) (doomed_keys test d)
  unfolding lookup
  doomed_absent test k [] h = unfold doomed_keys in tt
  doomed_absent test k ((j, e) ∷ d) h = elim (dec j k) [
    | yes p ↦ absurd (ground arith)
    | no p ↦
        let rest = doomed_absent test k d (ground arith) in
        elim (Bool-cases (test (j, e))) [
          | inl hit ↦ rw (doomed_keys_hit test (j, e) d hit) ((λ q. p (sym q)), rest)
          | inr miss ↦ rw (doomed_keys_miss test (j, e) d miss) rest
        ]
  ]

  -- Deleting the doomed keys leaves exactly the entries that fail the test, in their order.
  pub delete_all-doomed_keys :
      (test : K × V → Bool) (d : List (K × V))
      → IsDict dec d
      → delete_all (doomed_keys test d) d ≡ keep (λ e. not (test e)) d
  unfolding delete_all
  delete_all-doomed_keys test [] h = unfold doomed_keys in refl
  delete_all-doomed_keys test ((k, e) ∷ d) h = elim (Bool-cases (test (k, e))) [
    | inl hit ↦
        rw (doomed_keys_hit test (k, e) d hit, hit)
          (ap (delete_all (doomed_keys test d)) (delete_head dec k e d)
            ∙ delete_all-doomed_keys test d h.1)
    | inr miss ↦
        rw
          (
            doomed_keys_miss test (k, e) d miss,
            miss,
            delete_all_skip (doomed_keys test d) k e d (doomed_absent test k d h.0),
          )
          (ap (◌∷◌ (k, e)) (delete_all-doomed_keys test d h.1))
  ]

  pub length-doomed_keys :
      (test : K × V → Bool) (d : List (K × V))
      → length (doomed_keys test d) + length (keep (λ e. not (test e)) d) ≡ length d
  length-doomed_keys test [] = unfold doomed_keys in omega arith
  length-doomed_keys test (e ∷ d) = elim (Bool-cases (test e)) [
    | inl hit ↦ rw (doomed_keys_hit test e d hit, hit) (omega (arith, length-doomed_keys test d))
    | inr miss ↦
        rw (doomed_keys_miss test e d miss, miss) (omega (arith, length-doomed_keys test d))
  ]

  keep_absent :
      (test : K × V → Bool) (k : K) (d : List (K × V))
      → lookup dec k d ≡ none
      → lookup dec k (keep test d) ≡ none
  unfolding lookup
  keep_absent test k [] h = h
  keep_absent test k ((j, e) ∷ d) h = elim (dec j k) [
    | yes p ↦ absurd (ground arith)
    | no p ↦
        let rest = keep_absent test k d (ground arith) in
        elim (Bool-cases (test (j, e))) [
          | inl hit ↦ rw (hit, if_neg (dec j k) p) rest
          | inr miss ↦ rw miss rest
        ]
  ]

  pub keep-IsDict :
      (test : K × V → Bool) (d : List (K × V)) → IsDict dec d → IsDict dec (keep test d)
  keep-IsDict test [] h = h
  keep-IsDict test ((j, e) ∷ d) h = elim (Bool-cases (test (j, e))) [
    | inl hit ↦ rw hit (keep_absent test j d h.0, keep-IsDict test d h.1)
    | inr miss ↦ rw miss (keep-IsDict test d h.1)
  ]

  -- What a lookup finds, if it passes the test.
  abbrev pub passing : (K × V → Bool) → K → Option V → Option V
  passing test k none = none
  passing test k (some e) = if test (k, e) then some e else none

  lookup-keep_head :
      (test : K × V → Bool) (k : K) (e : V) (d : List (K × V))
      → lookup dec k d ≡ none
      → lookup dec k (keep test ((k, e) ∷ d)) ≡ passing test k (some e)
  lookup-keep_head test k e d h = elim (Bool-cases (test (k, e))) [
    | inl hit ↦ rw (hit, lookup_head dec k e (keep test d))
    | inr miss ↦ rw miss (keep_absent test k d h)
  ]

  -- A lookup after a filter finds the entry that was there, if it passes.
  pub lookup-keep :
      (test : K × V → Bool) (k : K) (d : List (K × V))
      → IsDict dec d
      → lookup dec k (keep test d) ≡ passing test k (lookup dec k d)
  lookup-keep test k [] h = unfold lookup in refl
  lookup-keep test k ((j, e) ∷ d) h = elim (dec j k) [
    | yes p ↦
        subst
          (λ i. lookup dec i (keep test ((j, e) ∷ d)) ≡ passing test i (lookup dec i ((j, e) ∷ d)))
          p (rw (lookup_head dec j e d) (lookup-keep_head test j e d h.0))
    | no p ↦ rw (lookup_tail dec k j e d p) (elim (Bool-cases (test (j, e))) [
      | inl hit ↦ rw (hit, lookup_tail dec k j e (keep test d) p) (lookup-keep test k d h.1)
      | inr miss ↦ rw miss (lookup-keep test k d h.1)
    ])
  ]

  none≢found :
      (k j : K) (x : V) (d : List (K × V))
      → k ≡ j
      → lookup dec k d ≡ none
      → lookup dec j d ≡ some x
      → ⊥
  none≢found k j x d p missing found = cc (ap (λ i. lookup dec i d) p)

  -- Nothing is doomed where no entry passes the test.
  pub doomed_keys_none :
      (test : K × V → Bool) (d : List (K × V))
      → IsDict dec d
      → ((k : K) (e : V) → lookup dec k d ≡ some e → test (k, e) ≡ false)
      → doomed_keys test d ≡ []
  doomed_keys_none test [] h none_doomed = unfold doomed_keys in refl
  doomed_keys_none test ((k, e) ∷ d) h none_doomed =
      rw (doomed_keys_miss test (k, e) d (none_doomed k e (lookup_head dec k e d))) (
        doomed_keys_none test d h.1 λ j x found. none_doomed j x (elim (dec k j) [
          | yes p ↦ absurd (none≢found k j x d p h.0 found)
          | no p ↦ lookup_tail dec j k e d p ∙ found
        ]))
