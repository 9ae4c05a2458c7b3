-- ===== src/Accounts/Connected.antt =====
-- The row of a mailbox that is connected, and the rows beside it (src/ccreport/accounts.py).
use ccreport.Prelude.{
  ℕ, ◌+◌, ◌≤◌, ◌≡◌, ◌≢◌, refl, sym, ap, ◌∙◌, Bool, true, false, none, some, List, [], ◌∷◌, ◌++◌,
  map, arith, ◌==◌, ==_iff, if◌then◌else◌, find, find-some, find-append_one, keep, length,
  Bool-cases, Option-cases, inl, inr,
}
use ccreport.Prelude.Texts.{Text, text_eq, text_eq_iff}
use ccreport.Accounts.{Account, find_account, update_account}
use ccreport.Accounts.Connecting.{is_mailbox, find_mailbox, new_account, mailbox_row}

-- What a change of a row leaves alone.
pub record IsSame (a b : Account) : Type 0 where
  pub id : b.id ≡ a.id
  pub user_id : b.user_id ≡ a.user_id
  pub provider : b.provider ≡ a.provider
  pub address : b.address ≡ a.address

-- No user has two rows for one address at one provider.
abbrev pub IsUnique : List Account → Type 0
IsUnique accounts =
    (user_id : ℕ) (provider address : Text)
    → length (keep (is_mailbox user_id provider address) accounts) ≤ 1

module _ {A : Type 0} (p : A → Bool) (g : A → A) (same : (a : A) → p (g a) ≡ p a) where
  pub find-map :
      (xs : List A) → find p (map g xs) ≡ elim (find p xs) [ none ↦ none | some a ↦ some (g a) ]
  find-map [] = refl
  find-map (x ∷ xs) = ground (arith, same x, find-map xs)

  length-keep-map : (xs : List A) → length (keep p (map g xs)) ≡ length (keep p xs)
  length-keep-map [] = refl
  length-keep-map (x ∷ xs) = ground (arith, same x, length-keep-map xs)

find-append_miss :
    {A : Type 0} (p : A → Bool) (xs : List A) (y : A)
    → p y ≡ false
    → find p (xs ++ y ∷ []) ≡ find p xs
find-append_miss p [] y h = rw h refl
find-append_miss p (x ∷ xs) y h = ground (arith, find-append_miss p xs y h)

length-keep_append :
    {A : Type 0} (p : A → Bool) (xs : List A) (y : A)
    → length (keep p (xs ++ y ∷ [])) ≡ length (keep p xs) + (if p y then 1 else 0)
length-keep_append p [] y = ground arith
length-keep_append p (x ∷ xs) y = ground (arith, length-keep_append p xs y)

keep-of_none : {A : Type 0} (p : A → Bool) (xs : List A) → find p xs ≡ none → length (keep p xs) ≡ 0
keep-of_none p [] h = refl
keep-of_none p (x ∷ xs) h = ground (arith, keep-of_none p xs)

-- Of a test that is passed, the three parts.
mailbox_parts :
    (user_id : ℕ) (provider address : Text) (a : Account)
    → is_mailbox user_id provider address a ≡ true
    → (a.user_id ≡ user_id) × (a.provider ≡ provider) × (a.address ≡ address)
mailbox_parts user_id provider address a h =
    let user : (a.user_id == user_id) ≡ true = ground (arith, h) in
    let prov : text_eq a.provider provider ≡ true = ground (arith, h) in
    let addr : text_eq a.address address ≡ true = ground (arith, h) in
    (
      (==_iff a.user_id user_id).0 user,
      (text_eq_iff a.provider provider).0 prov,
      (text_eq_iff a.address address).0 addr,
    )

append-IsUnique :
    (accounts : List Account) (a : Account)
    → find_mailbox accounts a.user_id a.provider a.address ≡ none
    → IsUnique accounts
    → IsUnique (accounts ++ a ∷ [])
unfolding find_mailbox
append-IsUnique accounts a absent h user_id provider address =
    let p = is_mailbox user_id provider address in
    let count = length-keep_append p accounts a in
    elim (Bool-cases (p a)) [
      | inl hit ↦
          let (user, prov, addr) = mailbox_parts user_id provider address a hit in
          let gone : find p accounts ≡ none = cc (
            absent,
            ap (λ u. is_mailbox u a.provider a.address) user,
            ap (λ q. is_mailbox user_id q a.address) prov,
            ap (λ q. is_mailbox user_id provider q) addr,
          ) in
          let empty = keep-of_none p accounts gone in
          let one : ◌≡◌ {A = ℕ} (if p a then 1 else 0) 1 = rw hit refl in
          omega (arith, count, empty, one)
      | inr miss ↦
          let zero_more : ◌≡◌ {A = ℕ} (if p a then 1 else 0) 0 = rw miss refl in
          omega (arith, count, h user_id provider address, zero_more)
    ]

module _ (id : ℕ) (change : Account → Account) (keeps : (a : Account) → IsSame a (change a)) where
  -- the change of one row
  abbrev pub change_one : Account → Account
  change_one a = if a.id == id then change a else a

  change_one-mailbox :
      (user_id : ℕ) (provider address : Text) (a : Account)
      → is_mailbox user_id provider address (change_one a) ≡ is_mailbox user_id provider address a
  change_one-mailbox user_id provider address a = elim (Bool-cases (a.id == id)) [
    | inl hit ↦ let k = keeps a in rw (hit, k.user_id, k.provider, k.address) refl
    | inr miss ↦ rw miss refl
  ]

  pub change_one-id : (j : ℕ) (a : Account) → ((change_one a).id == j) ≡ (a.id == j)
  change_one-id j a = elim (Bool-cases (a.id == id)) [
    | inl hit ↦ let k = keeps a in rw (hit, k.id) refl
    | inr miss ↦ rw miss refl
  ]

  update-IsUnique :
      (accounts : List Account) → IsUnique accounts → IsUnique (update_account id change accounts)
  unfolding update_account
  update-IsUnique accounts h user_id provider address =
      let same =
        length-keep-map (is_mailbox user_id provider address) change_one
          (change_one-mailbox user_id provider address) accounts in
      omega (arith, same, h user_id provider address)

  find_mailbox-update :
      (accounts : List Account) (user_id : ℕ) (provider address : Text) {a : Account}
      → find_mailbox accounts user_id provider address ≡ some a
      → a.id ≡ id
      → find_mailbox (update_account id change accounts) user_id provider address ≡ some (change a)
  unfolding find_mailbox update_account
  find_mailbox-update accounts user_id provider address {a} found mine =
      let hit : (a.id == id) ≡ true = (==_iff a.id id).1 mine in
      find-map (is_mailbox user_id provider address) change_one
        (change_one-mailbox user_id provider address) accounts
      ∙ rw (found, hit) refl

  pub find_account-update :
      (accounts : List Account) (j : ℕ)
      → j ≢ id
      → find_account (update_account id change accounts) j ≡ find_account accounts j
  unfolding find_account update_account
  find_account-update accounts j other =
      find-map (λ a. a.id == j) change_one (change_one-id j) accounts
      ∙ elim (Option-cases (find (λ a. a.id == j) accounts)) [
        | inl absent ↦ rw absent refl
        | inr (a, found) ↦
            let there : a.id ≡ j =
              (==_iff a.id j).0 (find-some (λ b. b.id == j) accounts {x = a} found) in
            let miss : (a.id == id) ≡ false = ground (arith, there, other) in rw (found, miss) refl
      ]

-- The row of the mailbox stands in the table, which has no other rows for it.
pub record IsRow (accounts : List Account) (user_id : ℕ) (provider address : Text) (row : Account)
    (rows : List Account) : Type 0 where
  pub there : find_mailbox rows user_id provider address ≡ some row
  pub unique : IsUnique accounts → IsUnique rows
  pub others : (j : ℕ) → j ≢ row.id → find_account rows j ≡ find_account accounts j

new_row :
    (accounts : List Account) (id user_id : ℕ) (provider address : Text) (now : ℕ)
    → find_mailbox accounts user_id provider address ≡ none
    → let row = new_account id user_id provider address now in
      IsRow accounts user_id provider address row (accounts ++ row ∷ [])
unfolding new_account find_mailbox find_account
new_row accounts id user_id provider address now absent =
    let row = new_account id user_id provider address now in
    let itself : is_mailbox user_id provider address row ≡ true =
      ground
        (arith, (text_eq_iff provider provider).1 refl, (text_eq_iff address address).1 refl) in
    record {
      there = find-append_one (is_mailbox user_id provider address) accounts row absent itself;
      unique = append-IsUnique accounts row absent;
      others = λ j other. find-append_miss (λ a. a.id == j) accounts row (ground (arith, other));
    }

pub mailbox_row-IsRow :
    (accounts : List Account) (id user_id : ℕ) (provider address : Text) (now : ℕ)
    → let r = mailbox_row accounts id user_id provider address now in
      IsRow accounts user_id provider address r.0 r.1
unfolding mailbox_row
mailbox_row-IsRow accounts id user_id provider address now =
    elim (Option-cases (find_mailbox accounts user_id provider address)) [
      | inl absent ↦
          rw (absent, mailbox_row) (new_row accounts id user_id provider address now absent)
      | inr (a, found) ↦
          rw (found, mailbox_row)
            (record { there = found; unique = λ h. h; others = λ j other. refl })
    ]

-- The table once the row of the mailbox has been changed.
pub update-IsRow :
    (accounts : List Account) (user_id : ℕ) (provider address : Text) (row : Account)
    (rows : List Account) (change : Account → Account)
    → ((a : Account) → IsSame a (change a))
    → IsRow accounts user_id provider address row rows
    → IsRow accounts user_id provider address (change row) (update_account row.id change rows)
update-IsRow accounts user_id provider address row rows change keeps h = record {
  there =
      find_mailbox-update row.id change keeps rows user_id provider address {a = row} h.there refl;
  unique = λ before. update-IsUnique row.id change keeps rows (h.unique before);
  others = λ j other.
      let apart : j ≢ row.id = λ e. other (e ∙ sym ((keeps row).id)) in
      find_account-update row.id change keeps rows j apart ∙ h.others j apart;
}
