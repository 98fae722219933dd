-- ===== src/Kafka/Keys.antt =====
-- What Kafka gets for one key.
use middle.Prelude.{
  ℕ, List, [], ◌∷◌, Option, ◌≡◌, refl, ap, ◌∙◌, Bool-cases, Option-cases, inl, inr, if◌then◌else◌,
}
use middle.Text.{Text, ◌==◌}
use middle.Text.Utf8.{utf8}
use middle.Kafka.{KafkaPublisher, get_writer, Written, publish, publish_all}

-- What was written under a key.
unfoldable pub with_key : Text → List Written → List Written
with_key k [] = []
with_key k (w ∷ ws) = let rest = with_key k ws in if w.message.key == utf8 k then w ∷ rest else rest

module _ {A : Type 0} (key : A → Text) where
  unfoldable pub of_key : Text → List A → List A
  of_key k [] = []
  of_key k (m ∷ ms) = let rest = of_key k ms in if utf8 (key m) == utf8 k then m ∷ rest else rest

module _ {A : Type 0} (marshal : A → Option (List ℕ)) (key : A → Text) where
  -- Once made, the writer stays.
  publish_all-get_writer :
      (p : KafkaPublisher) (ms : List A)
      → publish_all marshal key (get_writer p).0 ms ≡ publish_all marshal key p ms
  unfolding publish_all publish get_writer
  publish_all-get_writer p [] = refl
  publish_all-get_writer p (m ∷ ms) = elim (Option-cases (marshal m)) [
    | inl e ↦ rw e (publish_all-get_writer p ms)
    | inr (body, e) ↦ rw e refl
  ]

  -- What a publisher writes under a key are the messages of the items with that key, in the order in
  -- which they were published: a merchant's rows and events reach Kafka in order, whatever is
  -- published between them.
  pub with_key-publish_all :
      (k : Text) (p : KafkaPublisher) (ms : List A)
      → with_key k (publish_all marshal key p ms) ≡ publish_all marshal key p (of_key key k ms)
  unfolding with_key of_key publish_all publish
  with_key-publish_all k p [] = refl
  with_key-publish_all k p (m ∷ ms) = elim (Option-cases (marshal m)) [
    | inl e ↦ elim (Bool-cases (utf8 (key m) == utf8 k)) [
      | inl same ↦ rw (e, same, e) (with_key-publish_all k p ms)
      | inr other ↦ rw (e, other) (with_key-publish_all k p ms)
    ]
    | inr (body, e) ↦
        let w : Written = record {
          writer = (get_writer p).1;
          message = record { key = utf8 (key m); value = body };
        } in
        elim (Bool-cases (utf8 (key m) == utf8 k)) [
          | inl same ↦
              rw (e, same, e) (ap (λ l. w ∷ l) (with_key-publish_all k (get_writer p).0 ms))
          | inr other ↦
              rw (e, other)
                (with_key-publish_all k (get_writer p).0 ms
                  ∙ publish_all-get_writer p (of_key key k ms))
        ]
  ]
