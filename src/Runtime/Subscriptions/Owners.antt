-- ===== src/Runtime/Subscriptions/Owners.antt =====
-- An event reaches every owner that watches it, once.
use nm_daemon.Base.{
  ◌≡◌, subst, ◌⊎◌, inl, inr, Bool, not, ◌&&◌, String, none, some, List, [], ◌∷◌, arith, ◌==◌, any,
  Distinct, if◌then◌else◌, Bool-cases, Option-cases, option_beq_iff, string_eq, option_eq,
}
use text.Mathlib.TextEquality.{eq_iff}
use nm_daemon.Base.Sets.{has, has-All}
use nm_daemon.Base.Map.{Map}
use nm_daemon.Runtime.Tasks.{Stream}
use nm_daemon.Runtime.Feedback.{HealthFeedback}
use nm_daemon.Runtime.Subscriptions.{
  Actor, Outside, Data, Effect, Subscription, emits, external_event, watches, projected,
  emit_external_to_subscribers, handle_control,
}

-- Whether this owner has a subscription that watches the stream.
abbrev pub is_watching : Stream → String → Map String Subscription → Bool
is_watching stream o m = any (λ p. watches stream p.1 && (p.1).owner == some o) m

module _ (B P : Type 0) where
  -- The owners that an event went to.
  abbrev pub emitted : List (Effect B P) → List String
  emitted [] = []
  emitted (emits id owner stream request event d ∷ es) = owner ∷ emitted es
  emitted (_ ∷ es) = emitted es

  has-emitted :
      (out : Outside) (stream : Stream) (request event : String) (d : Data B) (done : List String)
      (m : Map String Subscription) (f : HealthFeedback) (o : String)
      → has o (emitted (emit_external_to_subscribers out stream request event d done m f).1)
        ≡ (not (has o done) && is_watching stream o m)
  unfolding emit_external_to_subscribers has
  has-emitted out stream request event d done [] f o = ground arith
  has-emitted out stream request event d done ((id, s) ∷ m) f o =
      elim (Option-cases (if watches stream s then s.owner else none)) [
        | inl q ↦ ground (
          arith,
          has-emitted out stream request event d done m f o,
          option_beq_iff s.owner (some o),
        )
        | inr (u, q) ↦ elim (Bool-cases (has u done)) [
          | inl b ↦ ground (
            arith,
            has-emitted out stream request event d done m f o,
            option_beq_iff s.owner (some o),
            eq_iff u o,
          )
          | inr b ↦ ground (
            arith,
            has-emitted out stream request event d (u ∷ done) m (projected out stream u d f).0 o,
            option_beq_iff s.owner (some o),
            eq_iff u o,
          )
        ]
      ]

  -- The owners that the loop serves, in order.
  abbrev served :
      Outside
      → Stream
      → String
      → String
      → Data B
      → List String
      → Map String Subscription
      → HealthFeedback
      → List String
  served out stream request event d done m f =
      emitted (emit_external_to_subscribers out stream request event d done m f).1

  -- The loop goes on, or it serves an owner that was not served before.
  served-cases :
      (out : Outside) (stream : Stream) (request event : String) (d : Data B) (done : List String)
      (id : String) (s : Subscription) (m : Map String Subscription) (f : HealthFeedback)
      → (served out stream request event d done m f
          ≡ served out stream request event d done ((id, s) ∷ m) f)
        ⊎ ((u : String) × (g : HealthFeedback) × (u
                ∷ served out stream request event d (u ∷ done) m g
              ≡ served out stream request event d done ((id, s) ∷ m) f))
  unfolding emit_external_to_subscribers
  served-cases out stream request event d done id s m f =
      elim (Option-cases (if watches stream s then s.owner else none)) [
        | inl q ↦ inl (ground arith)
        | inr (u, q) ↦ elim (Bool-cases (has u done)) [
          | inl b ↦ inl (ground arith)
          | inr b ↦ inr (u, (projected out stream u d f).0, ground arith)
        ]
      ]

  emitted-Distinct :
      (out : Outside) (stream : Stream) (request event : String) (d : Data B) (done : List String)
      (m : Map String Subscription) (f : HealthFeedback)
      → Distinct (served out stream request event d done m f)
  unfolding emit_external_to_subscribers has
  emitted-Distinct out stream request event d done [] f = tt
  emitted-Distinct out stream request event d done ((id, s) ∷ m) f =
      elim (served-cases out stream request event d done id s m f) [
        | inl q ↦ subst Distinct q (emitted-Distinct out stream request event d done m f)
        | inr (u, g, q) ↦
            let fresh = has-All u (served out stream request event d (u ∷ done) m g) (
              ground
                (arith, has-emitted out stream request event d (u ∷ done) m g u, eq_iff u u)) in
            subst Distinct q (fresh, emitted-Distinct out stream request event d (u ∷ done) m g)
      ]

  -- An external event goes to exactly the owners that have a subscription watching its stream, and to
  -- each of them once, however many of its subscriptions watch it.
  pub event_once_per_owner :
      (out : Outside) (stream : Stream) (request event : String) (d : Data B) (a : Actor)
      → let es = (handle_control {P = P} out (external_event stream request event d) a).1 in
        Distinct (emitted es)
        × ((o : String) → has o (emitted es) ≡ is_watching stream o a.subscriptions)
  unfolding handle_control has
  event_once_per_owner out stream request event d a = (
    emitted-Distinct out stream request event d [] a.subscriptions a.health_feedback,
    λ o.
        ground
          (arith, has-emitted out stream request event d [] a.subscriptions a.health_feedback o),
  )
