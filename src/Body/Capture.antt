-- ===== src/Body/Capture.antt =====
-- What the handlers get after the body was captured, and how much is captured.
use middle.Prelude.{
  ℕ, ◌≤◌, ◌<◌, suc, true, false, List, [], Option, none, some, leb, ltb, length, take, take_all,
  take-take-suc, length-take-le, ◌≡◌, ◌≢◌, ◌⊎◌, inl, inr, refl, ap, ◌∙◌, arith, Bool-cases,
  Option-cases, if◌then◌else◌, sym,
}
use middle.Prelude.Int.{ℤ, pos, exceeds}
use middle.Text.{Text}
use middle.Body.{
  Stream, whole, broken, max_audit_body, skip_request_body_capture, read_limited, read_request_body,
}

abbrev pub stream_bytes : Stream → List ℕ
stream_bytes (whole bytes) = bytes
stream_bytes (broken bytes) = bytes

-- The body that the handlers get.
abbrev pub handed : Text → ℤ → List ℕ → Option Stream
handed ct len bytes = (read_request_body ct len (some (whole bytes))).1

whole-inj : {s t : List ℕ} → some (whole s) ≡ some (whole t) → s ≡ t
whole-inj h = ap (λ o. elim o [ none ↦ [] | some b ↦ stream_bytes b ]) h

cut_differs : (n : ℕ) (bytes : List ℕ) → n < length bytes → take n bytes ≢ bytes
cut_differs n bytes h e = omega (arith, h, length-take-le n bytes, ap length e)

-- A body that reads without error reaches the handlers whole, or it was captured, has more than
-- 4097 bytes, and only the first 4097 are left.
pub read_request_body_cases :
    (content_type : Text) (content_length : ℤ) (bytes : List ℕ)
    → (handed content_type content_length bytes ≡ some (whole bytes))
      ⊎ ((skip_request_body_capture content_type content_length ≡ false)
          × (4097 < length bytes)
          × (handed content_type content_length bytes ≡ some (whole (take 4097 bytes)))
          × (handed content_type content_length bytes ≢ some (whole bytes)))
unfolding read_request_body
read_request_body_cases ct len bytes = elim (Bool-cases (skip_request_body_capture ct len)) [
  | inl e ↦ inl (rw (handed, e))
  | inr e ↦ elim (Bool-cases (leb (length bytes) 4097)) [
    | inl short ↦ inl (rw (handed, e, take_all 4097 bytes (ground arith)))
    | inr long ↦
        rw (handed, e)
          (inr (refl, ground arith, refl, λ h. cut_differs 4097 bytes (ground arith) (whole-inj h)))
  ]
]

exceeds-skip :
    (ct : Text) (len : ℤ)
    → exceeds len max_audit_body ≡ true
    → skip_request_body_capture ct len ≡ true
unfolding skip_request_body_capture
exceeds-skip ct len h = ground arith

longer_skipped :
    (ct : Text) (bytes : List ℕ)
    → 4097 < length bytes
    → skip_request_body_capture ct (pos (length bytes)) ≢ false
longer_skipped ct bytes long h =
    ground (arith, exceeds-skip ct (pos (length bytes)) (ground (arith, long)))

-- A body of the length that its request declares reaches the handlers whole.
pub read_request_body_declared :
    (content_type : Text) (bytes : List ℕ)
    → handed content_type (pos (length bytes)) bytes ≡ some (whole bytes)
read_request_body_declared ct bytes = elim (read_request_body_cases ct (pos (length bytes)) bytes) [
  | inl same ↦ same
  | inr (taken, long, cut, differs) ↦ absurd (longer_skipped ct bytes long taken)
]

cut_payload :
    (n : ℕ) (bytes : List ℕ)
    → (if ltb n (length (take (suc n) bytes))
        then take n (take (suc n) bytes)
        else take (suc n) bytes)
      ≡ take n bytes
cut_payload n bytes = elim (Bool-cases (ltb n (length (take (suc n) bytes)))) [
  | inl long ↦ rw long (take-take-suc n bytes)
  | inr short ↦
      rw short (sym (take_all n (take (suc n) bytes) (ground arith)) ∙ take-take-suc n bytes)
]

read_limited-stream_bytes :
    (n : ℕ) (body : Stream) (p : List ℕ)
    → read_limited n body ≡ some p
    → p ≡ take n (stream_bytes body)
read_limited-stream_bytes n (whole bytes) p h = ground arith
read_limited-stream_bytes n (broken bytes) p h = ground arith

-- A captured payload has at most 4096 bytes, and it is the start of the body.
pub read_request_body_payload :
    (content_type : Text) (content_length : ℤ) (body : Stream) (payload : List ℕ)
    → (read_request_body content_type content_length (some body)).0 ≡ some payload
    → (length payload ≤ max_audit_body) × (payload ≡ take max_audit_body (stream_bytes body))
unfolding read_request_body
read_request_body_payload ct len body payload h =
    elim (Bool-cases (skip_request_body_capture ct len)) [
      | inl e ↦ absurd (ground arith)
      | inr e ↦ elim (Option-cases (read_limited 4097 body)) [
        | inl failed ↦ absurd (ground arith)
        | inr (p, read) ↦
            let same : payload ≡ take max_audit_body (stream_bytes body) = ground (
              arith,
              cut_payload 4096 (stream_bytes body),
              read_limited-stream_bytes 4097 body p read,
            ) in
            (rw same (length-take-le max_audit_body (stream_bytes body)), same)
      ]
    ]
