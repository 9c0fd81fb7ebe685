-- ===== src/Records/Shares/Recipients/Resolved.antt =====
-- Which mail addresses have an account (`resolve_recipients` of records/shares.py).
use papertrail.Base.{
  ◌≡◌, ap, inl, inr, Bool, true, ◌&&◌, ◌||◌, not, some, List, [], ◌∷◌, arith, Text, text_eq,
  text_eq→≡, is_blank, lower, strip, Option-cases, Bool-cases, exists,
}
use papertrail.Records.Model.{User}
use papertrail.Records.Shares.Recipients.{add_email, email_set, user_of, resolve_each}

user_of_holds :
    (email : Text) (users : List User) {u : User}
    → user_of email users ≡ some u
    → text_eq (lower u.email) email ≡ true
unfolding user_of
user_of_holds email [] h = cc
user_of_holds email (v ∷ vs) {u} h = elim (Option-cases (user_of email vs)) [
  | inl e ↦ ground arith
  | inr (x, e) ↦ ground (arith, user_of_holds email vs {u = x})
]

module _ (key : Text) where
  abbrev pub has_address : User → Bool
  has_address u = text_eq (lower u.email) key

  abbrev pub is_key : Text → Bool
  is_key e = text_eq key e

  -- The address is among those entered, up to case and space around it.
  abbrev pub entered : Text → Bool
  entered e = not (is_blank (lower (strip e))) && is_key (lower (strip e))

  add_email-entered :
      (s : Text) (found : List Text)
      → (not (is_blank s) && is_key s) ≡ true
      → exists is_key (add_email s found) ≡ true
  unfolding exists add_email
  add_email-entered s found h =
      ground (arith, ap (λ t. exists (text_eq t) found) (text_eq→≡ key s (ground arith)))

  pub email_set-entered :
      (emails : List Text) → exists entered emails ≡ true → exists is_key (email_set emails) ≡ true
  unfolding exists email_set
  email_set-entered [] h = cc
  email_set-entered (e ∷ es) h = elim (Bool-cases (entered e)) [
    | inl i ↦ add_email-entered (lower (strip e)) (email_set es) i
    | inr i ↦ unfold add_email in ground (arith, email_set-entered es)
  ]

  pub resolve_each-exists :
      (users : List User) (emails : List Text)
      → exists is_key emails ≡ true
      → let (recipients, unknown) = resolve_each users emails in
        (exists has_address recipients || exists is_key unknown) ≡ true
  unfolding resolve_each exists
  resolve_each-exists users [] h = cc
  resolve_each-exists users (e ∷ es) h = elim (Option-cases (user_of e users)) [
    | inl none_found ↦ ground (arith, resolve_each-exists users es)
    | inr (u, found) ↦ ground (
      arith,
      resolve_each-exists users es,
      user_of_holds e users {u = u} found,
      λ (i : is_key e ≡ true). ap (text_eq (lower u.email)) (text_eq→≡ key e i),
    )
  ]
