-- ===== src/Documents/Uploads/Quota.antt =====
-- The storage limit through the checks of an upload (documents/services/validation.py, with
-- documents/signals.py and billing/entitlements.py).
use papertrail.Base.{
  ◌≡◌, refl, ℕ, ◌+◌, ◌*◌, ◌≤◌, Bool, true, false, ◌&&◌, not, ◌⊎◌, Option, none, some, ◌==◌, arith,
  if◌then◌else◌, inl, inr, Option-cases, pos, ◌-ℤ◌, ◌+ℤ◌, first, first-update, first_holds, Text,
  text, text_eq, ◌∷◌, ◌++◌,
}
use papertrail.Billing.Storage.{
  DocumentData, Store, counted_bytes, stored_size, adjusted, adjust_storage_usage, with_size,
  without_size, save_document,
}
use papertrail.Billing.Plans.{Subscriber}
use papertrail.Billing.Entitlements.{
  get_storage_limit, get_storage_usage_bytes, can_add_storage, half_gb,
}
use papertrail.Documents.Uploads.{
  UploadedDocument, Uploads, Head, Bucket, UploadResult, save_upload, save_error, save_accepted,
  check_head, exceeds_limit, run_checks, validate, confirm, failed, error, is_empty_file,
  is_too_large, limit_message, is_pending, status_text,
}

module _ (user_pk : ℕ) (s : Store) where
  -- The counter of the user, where there is one, moves by the difference.
  counted-≤ :
      (size old : ℕ)
      → get_storage_usage_bytes user_pk (adjust_storage_usage user_pk (pos size -ℤ pos old) s)
        ≤ get_storage_usage_bytes user_pk s + size
  unfolding get_storage_usage_bytes adjust_storage_usage ◌+ℤ◌ ◌-ℤ◌
  counted-≤ size old = elim (Option-cases (first (λ a. a.pk == user_pk) s.accounts)) [
    | inl e ↦ ground (
      arith,
      first-update (λ a. a.pk == user_pk) (λ a. a.pk == user_pk) (adjusted (pos size -ℤ pos old))
          s.accounts (λ a. refl),
    )
    | inr (a, e) ↦ ground (
      arith,
      first_holds (λ a. a.pk == user_pk) s.accounts e,
      first-update (λ a. a.pk == user_pk) (λ a. a.pk == user_pk) (adjusted (pos size -ℤ pos old))
          s.accounts (λ a. refl),
    )
  ]

  counted_same :
      (size : ℕ)
      → get_storage_usage_bytes user_pk (adjust_storage_usage user_pk (pos size -ℤ pos size) s)
        ≡ get_storage_usage_bytes user_pk s
  unfolding get_storage_usage_bytes adjust_storage_usage ◌+ℤ◌ ◌-ℤ◌
  counted_same size = elim (Option-cases (first (λ a. a.pk == user_pk) s.accounts)) [
    | inl e ↦ ground (
      arith,
      first-update (λ a. a.pk == user_pk) (λ a. a.pk == user_pk) (adjusted (pos size -ℤ pos size))
          s.accounts (λ a. refl),
    )
    | inr (a, e) ↦ ground (
      arith,
      first_holds (λ a. a.pk == user_pk) s.accounts e,
      first-update (λ a. a.pk == user_pk) (λ a. a.pk == user_pk) (adjusted (pos size -ℤ pos size))
          s.accounts (λ a. refl),
    )
  ]

saved_uncounted :
    (d : DocumentData) (s : Store)
    → get_storage_usage_bytes d.user_id (save_document without_size d s)
      ≡ get_storage_usage_bytes d.user_id s
unfolding save_document
saved_uncounted d s = counted_same d.user_id s (counted_bytes d)

saved_counted :
    (d : DocumentData) (s : Store)
    → get_storage_usage_bytes d.user_id (save_document with_size d s)
      ≤ get_storage_usage_bytes d.user_id s + counted_bytes d
unfolding save_document get_storage_usage_bytes
saved_counted d s = counted-≤ d.user_id _ (counted_bytes d) (stored_size d.pk s.documents)

-- A result that leaves the user's bytes alone, or one that does not take them over the limit.
abbrev pub WithinLimit : Subscriber → ℕ → Uploads → UploadResult × Uploads → Type 0
WithinLimit u user_pk s (result, s') =
    let before = get_storage_usage_bytes user_pk s.store in
    let after = get_storage_usage_bytes user_pk s'.store in
    ((result.valid ≡ false) × (after ≡ before))
    ⊎ ((result.valid ≡ true) × ((after ≤ before) ⊎ (after ≤ get_storage_limit u * half_gb)))

saved_within :
    (u : Subscriber) (size : Option ℕ) (d : DocumentData) (s : Store)
    → exceeds_limit u d.user_id s size ≡ false
    → let after =
        get_storage_usage_bytes d.user_id
          (save_document with_size (record d { file_size = size }) s) in
      (after ≤ get_storage_usage_bytes d.user_id s) ⊎ (after ≤ get_storage_limit u * half_gb)
unfolding counted_bytes exceeds_limit can_add_storage
saved_within u none d s h = inl (omega (arith, saved_counted (record d { file_size = none }) s))
saved_within u (some size) d s h =
    inr (ground (arith, saved_counted (record d { file_size = some size }) s))

WithinLimit-if :
    (u : Subscriber) (user_pk : ℕ) (s : Uploads) (b : Bool) (x y : UploadResult × Uploads)
    → WithinLimit u user_pk s x
    → (b ≡ false → WithinLimit u user_pk s y)
    → WithinLimit u user_pk s (if b then x else y)
WithinLimit-if u user_pk s true x y hx hy = hx
WithinLimit-if u user_pk s false x y hx hy = hy refl

module _ (bucket : Bucket) (u : Subscriber) (document : UploadedDocument) (s : Uploads) where
  abbrev Passes : UploadResult × Uploads → Type 0
  Passes = WithinLimit u document.counted.user_id s

  uncounted :
      get_storage_usage_bytes document.counted.user_id
        (save_document without_size document.counted s.store)
      ≡ get_storage_usage_bytes document.counted.user_id s.store
  uncounted = saved_uncounted document.counted s.store

  save_accepted-WithinLimit :
      (transition : Bool) (head : Head)
      → (transition && exceeds_limit u document.counted.user_id s.store head.content_length) ≡ false
      → Passes (save_accepted transition head document s)
  unfolding save_accepted
  save_accepted-WithinLimit true head h =
      inr (refl, saved_within u head.content_length document.counted s.store h)
  save_accepted-WithinLimit false head h = inr (refl, inl (omega arith))

  -- A rejection, or what comes after its test.
  Passes-unless :
      (b : Bool) (message remark : Text) (y : UploadResult × Uploads)
      → (b ≡ false → Passes y)
      → Passes (if b then (failed message 422, save_error remark document s) else y)
  Passes-unless true message remark y h = inl (refl, uncounted)
  Passes-unless false message remark y h = h refl

  check_head-WithinLimit :
      (transition : Bool) (head : Head) → Passes (check_head bucket u transition head document s)
  unfolding check_head
  check_head-WithinLimit transition head =
      let large = text "File exceeds 50.0MB limit." in
      let limit = limit_message bucket u (text "Storage limit (") (text " reached.") in
      let over =
        transition && exceeds_limit u document.counted.user_id s.store head.content_length in
      let limited : UploadResult × Uploads =
        if over
        then (
          failed limit 422,
          save_error
              (10
                ∷ limit_message bucket u (text "[Storage] Upload rejected: storage limit (")
                    (text " reached."))
              document s,
        )
        else save_accepted transition head document s in
      let sized : UploadResult × Uploads =
        if is_too_large head.content_length
        then (
          failed large 422,
          save_error (10 ∷ text "[Gatekeeper] File exceeds 50.0MB limit.") document s,
        )
        else limited in
      Passes-unless (is_empty_file head.content_length) (text "Empty file rejected.")
        (10 ∷ text "[Gatekeeper] Empty file rejected.") sized
        λ e.
          Passes-unless (is_too_large head.content_length) large
            (10 ∷ text "[Gatekeeper] File exceeds 50.0MB limit.") limited
            λ e.
              Passes-unless over limit
                (10
                  ∷ limit_message bucket u (text "[Storage] Upload rejected: storage limit (")
                      (text " reached."))
                (save_accepted transition head document s)
                (save_accepted-WithinLimit transition head)

  run_checks-WithinLimit :
      (transition : Bool) (key : Text) → Passes (run_checks bucket u transition document key s)
  unfolding run_checks
  run_checks-WithinLimit transition key =
      WithinLimit-if u document.counted.user_id s (not (text_eq document.columns.filepath key))
        (failed (text "Key mismatch.") 400, s) _ (inl (refl, refl))
        λ e.
          elim (bucket.get_r2_object_head key)
            as (λ found. Passes (elim found as (λ _. UploadResult × Uploads) [
              | none ↦ (
                failed (text "File not found in storage.") 404,
                save_upload without_size (λ row. record row { status = error }) document s,
              )
              | some head ↦ check_head bucket u transition head document s
            ])) [
              | none ↦ inl (refl, uncounted)
              | some head ↦ check_head-WithinLimit transition head
            ]

  -- Confirming an upload, and validating it: a document that is refused, for whatever reason,
  -- leaves the bytes that are counted for its user as they were. One that passes leaves them at
  -- no more than they were, or within the storage limit of plan and add-on; what was counted for
  -- the document before may be anything.
  pub confirm-WithinLimit :
      (key : Text)
      → WithinLimit u document.counted.user_id s (confirm bucket u document key s)
        × WithinLimit u document.counted.user_id s (validate bucket u document key s)
  unfolding confirm validate
  confirm-WithinLimit key = (
    run_checks-WithinLimit true key,
    WithinLimit-if u document.counted.user_id s (not (is_pending document.columns.status))
        (
          failed (text "Unexpected status: " ++ (status_text document.columns.status ++ text "."))
              409,
          s,
        )
        (run_checks bucket u false document key s) (inl (refl, refl))
        (λ e. run_checks-WithinLimit false key),
  )
