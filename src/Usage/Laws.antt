-- ===== src/Usage/Laws.antt =====
-- Which operations move the occupancy, by how much, and which events reach the queue.
use middle.Prelude.{
  ℕ, ◌≤◌, ◌<◌, true, false, ◌||◌, ◌&&◌, [], ◌∷◌, ◌++◌, none, some, any, leb, length, ◌≡◌, ◌≢◌, ◌⊎◌,
  inl, inr, refl, arith, Bool-cases, Option-cases, ap, ◌^◌, ◌-◌, if◌then◌else◌,
}
use middle.Prelude.Int.{ℤ, pos, negsuc, is_positive, is_zero, abs_int64, is_negative}
use middle.Text.{Text, runes, is_empty, ◌==◌}
use middle.Text.Equality.{eq_iff}
use middle.Queue.{Channel, capacity, send}
use middle.Queue.Order.{send-eq-some}
use middle.Usage.{
  UsageEvent, kind_image, skip_usage_merchant, usage_kinds, usage_kind_of, delta_of,
  usage_from_operation, enqueue_usage, usage_bytes,
}

-- A creation counts 1, a deletion -1.
pub data Counts : Text → ℤ → Type 0 where
  created : {a : Text} {d : ℤ} → a ≡ runes "create" → d ≡ pos 1 → Counts a d
  deleted : {a : Text} {d : ℤ} → a ≡ runes "delete" → d ≡ negsuc 0 → Counts a d

abbrev pub IsListed : Text → Type 0
IsListed resource = any (λ k. k == resource) usage_kinds ≡ true

-- What an event says of the operation that it comes from. Its bytes are a size, never negative.
pub record IsOccupancy (resource action : Text) (code : ℕ) (len : ℤ) (ev : UsageEvent)
    : Type 0 where
  pub succeeded : code < 400
  pub counts : Counts action ev.delta
  pub listed : IsListed resource
  pub kind : ev.kind ≡ resource
  pub size : is_negative ev.bytes ≡ false
  pub image_bytes :
      resource ≡ kind_image → is_positive (abs_int64 len) ≡ true → ev.bytes ≡ abs_int64 len
  pub other_bytes : resource ≢ kind_image → ev.bytes ≡ pos 0

-- Why an operation has no event.
pub data IsIgnored (resource action : Text) (code : ℕ) : Type 0 where
  failed : 400 ≤ code → IsIgnored resource action code
  no_change : action ≢ runes "create" → action ≢ runes "delete" → IsIgnored resource action code
  not_counted : any (λ k. k == resource) usage_kinds ≡ false → IsIgnored resource action code

delta_of-Counts : (a : Text) (d : ℤ) → delta_of a ≡ some d → Counts a d
unfolding delta_of
delta_of-Counts a d h = elim (Bool-cases (a == runes "create")) [
  | inl e ↦ created ((eq_iff _ _).0 e) (ground arith)
  | inr e ↦ elim (Bool-cases (a == runes "delete")) [
    | inl e' ↦ deleted ((eq_iff _ _).0 e') (ground arith)
    | inr e' ↦ absurd (ground arith)
  ]
]

delta_of-none : (a : Text) → delta_of a ≡ none → (a ≢ runes "create") × (a ≢ runes "delete")
unfolding delta_of
delta_of-none a h = (
  λ e. ground (arith, eq_iff a (runes "create")),
  λ e. ground (arith, eq_iff a (runes "create"), eq_iff a (runes "delete")),
)

unlisted_kind :
    (resource : Text) → any (λ k. k == resource) usage_kinds ≡ false → usage_kind_of resource ≡ []
unfolding usage_kind_of
unlisted_kind resource h = rw h

listed_kind :
    (resource : Text)
    → IsListed resource
    → (usage_kind_of resource ≡ resource) × (is_empty resource ≡ false)
unfolding usage_kind_of ◌==◌
listed_kind [] h = cc
listed_kind (c ∷ r) h = (rw h, refl)

-- An operation has an event exactly as `IsOccupancy` describes it, or it has none because it
-- failed, changes no count, or its resource is not counted.
pub usage_from_operation_cases :
    (resource action : Text) (code : ℕ) (len : ℤ)
    → ((ev : UsageEvent) × (usage_from_operation resource action code len ≡ some ev)
        × IsOccupancy resource action code len ev)
      ⊎ ((usage_from_operation resource action code len ≡ none) × IsIgnored resource action code)
unfolding usage_from_operation
usage_from_operation_cases resource action code len = elim (Bool-cases (leb 400 code)) [
  | inl bad ↦ inr (rw bad, failed (ground arith))
  | inr good ↦ elim (Option-cases (delta_of action)) [
    | inl still ↦
        let (no_create, no_delete) = delta_of-none action still in
        inr (rw (good, still), no_change no_create no_delete)
    | inr (d, moved) ↦ elim (Bool-cases (any (λ k. k == resource) usage_kinds)) [
      | inr unlisted ↦ inr (rw (good, moved, unlisted_kind resource unlisted), not_counted unlisted)
      | inl listed ↦
          let (kind, full) = listed_kind resource listed in
          let ev : UsageEvent = record {
            merchant_id = [];
            kind = resource;
            delta = d;
            bytes =
                if resource == kind_image && is_positive (abs_int64 len)
                then abs_int64 len
                else pos 0;
            path = [];
            at = pos 0;
          } in
          inl (
            ev,
            rw (good, moved, kind, full),
            record {
              succeeded = ground arith;
              counts = delta_of-Counts action d moved;
              listed = listed;
              kind = refl;
              size = ground arith;
              image_bytes = λ e p. ground (arith, eq_iff resource kind_image);
              other_bytes = λ ne. ground (arith, eq_iff resource kind_image);
            },
          )
    ]
  ]
]

-- Why an event is not put into the queue.
pub data IsDropped (ev : UsageEvent) (ch : Channel UsageEvent) : Type 0 where
  incomplete : (ev.merchant_id ≡ []) ⊎ (ev.kind ≡ []) → IsDropped ev ch
  changes_nothing : is_zero ev.delta ≡ true → is_zero ev.bytes ≡ true → IsDropped ev ch
  no_tenant : skip_usage_merchant ev.merchant_id ≡ true → IsDropped ev ch
  not_started : ch.made ≡ false → IsDropped ev ch
  full : capacity ≤ length ch.buffer → IsDropped ev ch

-- What is put into the queue: the event, stamped with the time if it has none.
abbrev pub stamped : ℤ → UsageEvent → UsageEvent
stamped now ev = if is_zero ev.at then record ev { at = now } else ev

enqueue_usage-IsDropped :
    (now : ℤ) (ev : UsageEvent) (ch : Channel UsageEvent)
    → enqueue_usage now ev ch ≡ none
    → IsDropped ev ch
unfolding enqueue_usage send
enqueue_usage-IsDropped now ev ch h =
    elim (Bool-cases (is_empty ev.merchant_id || is_empty ev.kind)) [
      | inl e ↦ incomplete (ground arith)
      | inr named ↦ elim (Bool-cases (is_zero ev.delta && is_zero ev.bytes)) [
        | inl e ↦ changes_nothing (ground arith) (ground arith)
        | inr moved ↦ elim (Bool-cases (skip_usage_merchant ev.merchant_id)) [
          | inl e ↦ no_tenant e
          | inr e ↦ elim (Bool-cases ch.made) [
            | inr off ↦ not_started off
            | inl on ↦ full (ground arith)
          ]
        ]
      ]
    ]

-- An event is put into the queue, behind those that wait, or there is a reason for dropping it;
-- the one that is put there names a tenant and a kind, changes something, and leaves the queue
-- within its capacity.
pub enqueue_usage_cases :
    (now : ℤ) (ev : UsageEvent) (ch : Channel UsageEvent)
    → ((enqueue_usage now ev ch ≡ none) × IsDropped ev ch)
      ⊎ ((ch' : Channel UsageEvent) × (enqueue_usage now ev ch ≡ some ch')
          × (ch'.buffer ≡ ch.buffer ++ (stamped now ev ∷ []))
          × (length ch.buffer < capacity)
          × (skip_usage_merchant ev.merchant_id ≡ false)
          × (ev.kind ≢ [])
          × ((is_zero ev.delta ≡ false) ⊎ (is_zero ev.bytes ≡ false)))
unfolding enqueue_usage
enqueue_usage_cases now ev ch = elim (Option-cases (enqueue_usage now ev ch)) [
  | inl dropped ↦ inl (dropped, enqueue_usage-IsDropped now ev ch dropped)
  | inr (ch', taken) ↦
      let sent : send (stamped now ev) ch ≡ some ch' = ground arith in
      let (same, made, room) = send-eq-some (stamped now ev) ch ch' sent in
      inr (ch', taken, ap (λ c. c.buffer) same, room, ground arith, ground arith, ground arith)
]

-- The size of an operation is negative only if its length is the least 64-bit integer.
pub usage_bytes_nonneg :
    (from_context from_before len : ℤ)
    → is_negative (usage_bytes from_context from_before len) ≡ true
    → len ≡ negsuc (2 ^ 63 - 1)
unfolding usage_bytes
usage_bytes_nonneg from_context from_before len h = ground arith
