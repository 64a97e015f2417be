-- ===== src/Http/Replay.antt =====
-- The body of a request is put back as it was, and what is captured of it.
use logcenter_sdk_go.Base.{
  ℕ, zero, suc, ◌-◌, ◌^◌, ◌≤◌, ◌<◌, min, ℤ, pos, List, [], ◌∷◌, true, false, Option, none, some,
  ltb, ltb_ℤ, ◌+ℤ◌, wrap_int64, to_nat, take, length, length-take, take-append-drop, ◌≡◌, refl, sym,
  ap, ◌∙◌, Bool-cases, inl, inr, arith,
}
use logcenter_sdk_go.Http.Request.{Reader, HttpRequest}
use logcenter_sdk_go.Http.Body.{
  Decoders, RequestBodyCaptureOptions, failure_before, captured_part, read_and_restore_body,
  content_type_allowed, media_type_of, max_bytes_of, capture_body, capture_http_request_body,
}

restored :
    (max_bytes : ℤ) (original : Reader) → (read_and_restore_body max_bytes original).1 ≡ original
unfolding read_and_restore_body
restored max_bytes original =
    ap (λ (bytes : List ℕ). record original { bytes = bytes }) (take-append-drop _ original.bytes)

module _ (decoders : Decoders) where
  capture_body-restores :
      (options : RequestBodyCaptureOptions) (r : HttpRequest) (body : Option Reader)
      → r.body ≡ body
      → (capture_body decoders options r body).1 ≡ r
  capture_body-restores options r none h = refl
  capture_body-restores options r (some original) h =
      elim (Bool-cases (
        content_type_allowed decoders (media_type_of decoders (r.header "Content-Type"))
          options.content_types)) [
            | inr e ↦ rw e refl
            | inl e ↦ rw e (
                ap (λ (b : Reader). record r { body = some b })
                  (restored (max_bytes_of decoders options) original)
                ∙ ap (λ (b : Option Reader). record r { body = b }) (sym h))
          ]

  -- Whatever the options and the body, and whether the body can be read or not, the handlers after the
  -- capture meet the request as it was, with its body whole.
  pub capture_restores :
      (options : RequestBodyCaptureOptions) (r : HttpRequest)
      → (capture_http_request_body decoders options r).1 ≡ r
  unfolding capture_http_request_body
  capture_restores options r = capture_body-restores options r r.body refl

take_all : {A : Type 0} (n : ℕ) (xs : List A) → length xs ≤ n → take n xs ≡ xs
take_all zero [] h = refl
take_all zero (x ∷ xs) h = ground arith
take_all (suc n) [] h = refl
take_all (suc n) (x ∷ xs) h = ap (◌∷◌ x) (take_all n xs (omega (arith, h)))

take-take : {A : Type 0} (n : ℕ) (xs : List A) → take n (take (suc n) xs) ≡ take n xs
take-take zero xs = refl
take-take (suc n) [] = refl
take-take (suc n) (x ∷ xs) = ap (◌∷◌ x) (take-take n xs)

limit_of : (n : ℕ) → n < 2 ^ 63 - 1 → to_nat (wrap_int64 (pos n +ℤ pos 1)) ≡ suc n
limit_of n h = ground arith

longer : (n m : ℕ) → ltb_ℤ (pos n) (pos (min (suc n) m)) ≡ ltb n m
longer n m = ground arith

part_of :
    (n : ℕ) (bytes : List ℕ)
    → captured_part (pos n) none (take (suc n) bytes) ≡ some (take n bytes, ltb n (length bytes))
unfolding captured_part
part_of n bytes = elim (Bool-cases (ltb n (length bytes))) [
  | inl h ↦
      rw (length-take (suc n) bytes, longer n (length bytes), h)
        (ap (λ (t : List ℕ). some (t, true)) (take-take n bytes))
  | inr h ↦
      rw (length-take (suc n) bytes, longer n (length bytes), h)
        (ap (λ (t : List ℕ). some (t, false))
          (take_all (suc n) bytes (ground arith) ∙ sym (take_all n bytes (ground arith))))
]

-- With a limit that is not the largest number of 64 bits, the first bytes of the body up to the limit are
-- captured, and they are called truncated just if the body is longer, unless the body fails before.
pub read_and_restore_body_lem :
    (n : ℕ) (original : Reader)
    → n < 2 ^ 63 - 1
    → failure_before (suc n) original ≡ none
    → (read_and_restore_body (pos n) original).0
      ≡ some (take n original.bytes, ltb n (length original.bytes))
unfolding read_and_restore_body
read_and_restore_body_lem n original h ok = rw (limit_of n h, ok) (part_of n original.bytes)
