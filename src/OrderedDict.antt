-- ===== src/OrderedDict.antt =====
-- Python's `OrderedDict`, over keys with a decidable equality: the entries in their order, the
-- oldest first. No key stands in it twice.
pub mod Doomed
use mathlib.Core.Logic.{ite, if_pos, if_neg}
use ccreport.Prelude.{
  ℕ, suc, ◌+◌, ◌≤◌, ◌≡◌, refl, ◌∙◌, ◌≢◌, Bool, true, false, Option, none, some, List, [], ◌∷◌, ◌++◌,
  arith, if◌then◌else◌, length, keep, length-append, length-keep-le, Bool-cases, inl, inr,
  Option-cases, is_some,
}

module _ {ℓ} {K V : Type ℓ} (dec : Discrete K) where
  -- `d.get(k)`
  unfoldable pub lookup : K → List (K × V) → Option V
  lookup k [] = none
  lookup k ((j, v) ∷ d) = ite (dec j k) (some v) (lookup k d)

  -- `d[k] = v`: a key that is there keeps its place
  unfoldable pub assign : K → V → List (K × V) → List (K × V)
  assign k v [] = (k, v) ∷ []
  assign k v ((j, w) ∷ d) = ite (dec j k) ((j, v) ∷ d) ((j, w) ∷ assign k v d)

  -- `del d[k]`
  unfoldable pub delete : K → List (K × V) → List (K × V)
  delete k [] = []
  delete k ((j, w) ∷ d) = ite (dec j k) d ((j, w) ∷ delete k d)

  -- `d.move_to_end(k)` for a key that is there
  unfoldable pub move_to_end : K → List (K × V) → List (K × V)
  move_to_end k d = elim (lookup k d) [ none ↦ d | some v ↦ delete k d ++ (k, v) ∷ [] ]

  -- No key twice.
  abbrev pub IsDict : List (K × V) → Type ℓ
  IsDict [] = Unit
  IsDict ((k, v) ∷ d) = (lookup k d ≡ none) × IsDict d

  pub lookup-append :
      (k : K) (d e : List (K × V))
      → lookup k (d ++ e) ≡ elim (lookup k d) [ none ↦ lookup k e | some v ↦ some v ]
  unfolding lookup
  lookup-append k [] e = refl
  lookup-append k ((j, w) ∷ d) e = ground (arith, lookup-append k d e)

  pub lookup-assign :
      (k j : K) (v : V) (d : List (K × V))
      → lookup j (assign k v d) ≡ ite (dec k j) (some v) (lookup j d)
  unfolding lookup assign
  lookup-assign k j v [] = refl
  lookup-assign k j v ((i, w) ∷ d) = ground (arith, lookup-assign k j v d)

  pub lookup_head : (k : K) (v : V) (d : List (K × V)) → lookup k ((k, v) ∷ d) ≡ some v
  unfolding lookup
  lookup_head k v d = rw (if_pos (dec k k) refl)

  pub lookup_tail :
      (k j : K) (v : V) (d : List (K × V)) → j ≢ k → lookup k ((j, v) ∷ d) ≡ lookup k d
  unfolding lookup
  lookup_tail k j v d h = rw (if_neg (dec j k) h)

  pub delete_head : (k : K) (v : V) (d : List (K × V)) → delete k ((k, v) ∷ d) ≡ d
  unfolding delete
  delete_head k v d = rw (if_pos (dec k k) refl)

  pub delete_absent : (k : K) (d : List (K × V)) → lookup k d ≡ none → delete k d ≡ d
  unfolding lookup delete
  delete_absent k [] h = refl
  delete_absent k ((j, w) ∷ d) h = ground (arith, delete_absent k d)

  pub lookup-delete :
      (k j : K) (d : List (K × V))
      → IsDict d
      → lookup j (delete k d) ≡ ite (dec k j) none (lookup j d)
  unfolding lookup delete
  lookup-delete k j [] h = ground arith
  lookup-delete k j ((i, w) ∷ d) h = ground (arith, lookup-delete k j d h.1)

  pub delete-IsDict : (k : K) (d : List (K × V)) → IsDict d → IsDict (delete k d)
  unfolding delete
  delete-IsDict k [] h = h
  delete-IsDict k ((j, w) ∷ d) h = ground (arith, delete-IsDict k d h.1, lookup-delete k j d h.1)

  pub assign-IsDict : (k : K) (v : V) (d : List (K × V)) → IsDict d → IsDict (assign k v d)
  unfolding assign lookup
  assign-IsDict k v [] h = ground arith
  assign-IsDict k v ((j, w) ∷ d) h = ground (arith, assign-IsDict k v d h.1, lookup-assign k j v d)

  pub append-IsDict :
      (k : K) (v : V) (d : List (K × V)) → IsDict d → lookup k d ≡ none → IsDict (d ++ (k, v) ∷ [])
  unfolding lookup
  append-IsDict k v [] h f = ground arith
  append-IsDict k v ((j, w) ∷ d) h f =
      ground (arith, append-IsDict k v d h.1, lookup-append j d ((k, v) ∷ []))

  pub length-delete :
      (k : K) (d : List (K × V)) {v : V} → lookup k d ≡ some v → length (delete k d) + 1 ≡ length d
  unfolding lookup delete
  length-delete k [] h = cc
  length-delete k ((j, w) ∷ d) {v} h = ground (arith, length-delete k d {v = v})

  pub length-delete-le : (k : K) (d : List (K × V)) → length (delete k d) ≤ length d
  unfolding delete
  length-delete-le k [] = omega arith
  length-delete-le k ((j, w) ∷ d) = ground (arith, length-delete-le k d)

  pub length-assign :
      (k : K) (v : V) (d : List (K × V))
      → length (assign k v d) ≡ length d + (if is_some (lookup k d) then 0 else 1)
  unfolding lookup assign
  length-assign k v [] = omega arith
  length-assign k v ((j, w) ∷ d) = ground (arith, length-assign k v d)

  pub move_to_end_there :
      (k : K) (d : List (K × V)) {v : V}
      → lookup k d ≡ some v
      → move_to_end k d ≡ delete k d ++ (k, v) ∷ []
  unfolding move_to_end
  move_to_end_there k d h = rw (h, move_to_end)

  pub length-move_to_end : (k : K) (d : List (K × V)) → length (move_to_end k d) ≡ length d
  unfolding move_to_end
  length-move_to_end k d = elim (Option-cases (lookup k d)) [
    | inl e ↦ rw (e, move_to_end)
    | inr (v, e) ↦
        rw (e, move_to_end, length-append (delete k d) ((k, v) ∷ []))
          (omega (arith, length-delete k d {v = v} e))
  ]

  pub lookup-move_to_end :
      (k j : K) (d : List (K × V)) → IsDict d → lookup j (move_to_end k d) ≡ lookup j d
  unfolding move_to_end lookup
  lookup-move_to_end k j d h = elim (Option-cases (lookup k d)) [
    | inl e ↦ rw (e, move_to_end)
    | inr (v, e) ↦
        rw (e, move_to_end, lookup-append j (delete k d) ((k, v) ∷ []))
          (ground (arith, lookup-delete k j d h))
  ]

  pub move_to_end-IsDict : (k : K) (d : List (K × V)) → IsDict d → IsDict (move_to_end k d)
  unfolding move_to_end
  move_to_end-IsDict k d h = elim (Option-cases (lookup k d)) [
    | inl e ↦ rw (e, move_to_end) h
    | inr (v, e) ↦
        rw (e, move_to_end)
          (append-IsDict k v (delete k d) (delete-IsDict k d h)
            (ground (arith, lookup-delete k k d h)))
  ]

  delete-assign : (k : K) (v : V) (d : List (K × V)) → delete k (assign k v d) ≡ delete k d
  unfolding delete assign
  delete-assign k v [] = ground arith
  delete-assign k v ((j, w) ∷ d) = ground (arith, delete-assign k v d)

  -- A key that is assigned and moved to the end stands last, behind all the others.
  pub move_to_end-assign :
      (k : K) (v : V) (d : List (K × V)) → move_to_end k (assign k v d) ≡ delete k d ++ (k, v) ∷ []
  unfolding move_to_end
  move_to_end-assign k v d =
      let there : lookup k (assign k v d) ≡ some v =
        lookup-assign k k v d ∙ if_pos (dec k k) refl _ _ in
      rw (there, move_to_end, delete-assign k v d)
