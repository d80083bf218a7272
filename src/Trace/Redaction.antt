-- ===== src/Trace/Redaction.antt =====
-- crates/apimock-server/src/trace.rs: what the redaction of a JSON value shows of it.
use mathlib.Core.Path.{subst}
use apimock_rs.Prelude.{true, ◌≡◌, refl, ◌↔◌, inl, inr, Bool-cases}
use apimock_rs.Prelude.Text.{Text}
use apimock_rs.Routing.Json.{
  Json, null, boolean, number, string, array, object, Items, nil, cons, Fields, end, field,
}
use apimock_rs.Trace.{
  TraceConfig, is_redacted_key, redacted_header_value, redact_json_value, redact_items,
  redact_fields,
}

module _ {N : Type 0} (config : TraceConfig) where
  -- Two values that differ only in what stands under redacted keys.
  mutual
    pub data Agree : Json N → Json N → Type 0 where
      same : (v : Json N) → Agree v v
      arrays : (vs ws : Items N) → AgreeItems vs ws → Agree (array vs) (array ws)
      objects : (fs gs : Fields N) → AgreeFields fs gs → Agree (object fs) (object gs)

    pub data AgreeItems : Items N → Items N → Type 0 where
      no_items : AgreeItems nil nil
      items :
          (v w : Json N) (vs ws : Items N)
          → Agree v w
          → AgreeItems vs ws
          → AgreeItems (cons v vs) (cons w ws)

    pub data AgreeFields : Fields N → Fields N → Type 0 where
      no_fields : AgreeFields end end
      hidden :
          (key : Text) (v w : Json N) (fs gs : Fields N)
          → is_redacted_key config key ≡ true
          → AgreeFields fs gs
          → AgreeFields (field key v fs) (field key w gs)
      shown :
          (key : Text) (v w : Json N) (fs gs : Fields N)
          → Agree v w
          → AgreeFields fs gs
          → AgreeFields (field key v fs) (field key w gs)

  mutual
    unfolding redact_json_value redact_items redact_fields

    redact-Agree :
        (v w : Json N) → Agree v w → redact_json_value config v ≡ redact_json_value config w
    redact-Agree _ _ (same v) = refl
    redact-Agree _ _ (arrays vs ws h) = cc (redact-AgreeItems vs ws h)
    redact-Agree _ _ (objects fs gs h) = cc (redact-AgreeFields fs gs h)

    redact-AgreeItems :
        (vs ws : Items N) → AgreeItems vs ws → redact_items config vs ≡ redact_items config ws
    redact-AgreeItems _ _ no_items = refl
    redact-AgreeItems _ _ (items v w vs ws h k) = cc (redact-Agree v w h, redact-AgreeItems vs ws k)

    redact-AgreeFields :
        (fs gs : Fields N) → AgreeFields fs gs → redact_fields config fs ≡ redact_fields config gs
    redact-AgreeFields _ _ no_fields = refl
    redact-AgreeFields _ _ (hidden key v w fs gs e k) = rw e (cc (redact-AgreeFields fs gs k))
    redact-AgreeFields _ _ (shown key v w fs gs h k) =
        cc (redact-Agree v w h, redact-AgreeFields fs gs k)

  mutual
    unfolding redact_json_value redact_items redact_fields

    Agree-redact : (v : Json N) → Agree v (redact_json_value config v)
    Agree-redact (object fs) = objects fs (redact_fields config fs) (AgreeFields-redact fs)
    Agree-redact (array vs) = arrays vs (redact_items config vs) (AgreeItems-redact vs)
    Agree-redact null = same null
    Agree-redact (boolean b) = same (boolean b)
    Agree-redact (number n) = same (number n)
    Agree-redact (string s) = same (string s)

    AgreeItems-redact : (vs : Items N) → AgreeItems vs (redact_items config vs)
    AgreeItems-redact nil = no_items
    AgreeItems-redact (cons v vs) =
        items v (redact_json_value config v) vs (redact_items config vs) (Agree-redact v)
          (AgreeItems-redact vs)

    AgreeFields-redact : (fs : Fields N) → AgreeFields fs (redact_fields config fs)
    AgreeFields-redact end = no_fields
    AgreeFields-redact (field key v fs) = elim (Bool-cases (is_redacted_key config key)) [
      | inl e ↦ rw e (
          hidden key v (string redacted_header_value) fs (redact_fields config fs) e
            (AgreeFields-redact fs))
      | inr e ↦ rw e (
          shown key v (redact_json_value config v) fs (redact_fields config fs) (Agree-redact v)
            (AgreeFields-redact fs))
    ]

  mutual
    Agree-sym : (v w : Json N) → Agree v w → Agree w v
    Agree-sym _ _ (same v) = same v
    Agree-sym _ _ (arrays vs ws h) = arrays ws vs (AgreeItems-sym vs ws h)
    Agree-sym _ _ (objects fs gs h) = objects gs fs (AgreeFields-sym fs gs h)

    AgreeItems-sym : (vs ws : Items N) → AgreeItems vs ws → AgreeItems ws vs
    AgreeItems-sym _ _ no_items = no_items
    AgreeItems-sym _ _ (items v w vs ws h k) =
        items w v ws vs (Agree-sym v w h) (AgreeItems-sym vs ws k)

    AgreeFields-sym : (fs gs : Fields N) → AgreeFields fs gs → AgreeFields gs fs
    AgreeFields-sym _ _ no_fields = no_fields
    AgreeFields-sym _ _ (hidden key v w fs gs e k) =
        hidden key w v gs fs e (AgreeFields-sym fs gs k)
    AgreeFields-sym _ _ (shown key v w fs gs h k) =
        shown key w v gs fs (Agree-sym v w h) (AgreeFields-sym fs gs k)

  mutual
    Agree-trans : (u v w : Json N) → Agree u v → Agree v w → Agree u w
    Agree-trans _ _ w (same v) k = k
    Agree-trans _ _ _ (arrays us vs h) (same _) = arrays us vs h
    Agree-trans _ _ _ (arrays us vs h) (arrays _ ws k) =
        arrays us ws (AgreeItems-trans us vs ws h k)
    Agree-trans _ _ _ (objects fs gs h) (same _) = objects fs gs h
    Agree-trans _ _ _ (objects fs gs h) (objects _ hs k) =
        objects fs hs (AgreeFields-trans fs gs hs h k)

    AgreeItems-trans : (us vs ws : Items N) → AgreeItems us vs → AgreeItems vs ws → AgreeItems us ws
    AgreeItems-trans _ _ _ no_items no_items = no_items
    AgreeItems-trans _ _ _ (items u v us vs h k) (items _ w _ ws h' k') =
        items u w us ws (Agree-trans u v w h h') (AgreeItems-trans us vs ws k k')

    AgreeFields-trans :
        (fs gs hs : Fields N) → AgreeFields fs gs → AgreeFields gs hs → AgreeFields fs hs
    AgreeFields-trans _ _ _ no_fields no_fields = no_fields
    AgreeFields-trans _ _ _ (hidden key u v fs gs e k) (hidden _ _ w _ hs _ k') =
        hidden key u w fs hs e (AgreeFields-trans fs gs hs k k')
    AgreeFields-trans _ _ _ (hidden key u v fs gs e k) (shown _ _ w _ hs _ k') =
        hidden key u w fs hs e (AgreeFields-trans fs gs hs k k')
    AgreeFields-trans _ _ _ (shown key u v fs gs h k) (hidden _ _ w _ hs e k') =
        hidden key u w fs hs e (AgreeFields-trans fs gs hs k k')
    AgreeFields-trans _ _ _ (shown key u v fs gs h k) (shown _ _ w _ hs h' k') =
        shown key u w fs hs (Agree-trans u v w h h') (AgreeFields-trans fs gs hs k k')

  -- Two JSON values redact to the same value exactly when they differ only in what stands under
  -- redacted keys: all of that is hidden, at every depth, and nothing else is.
  pub redact_json_value_iff :
      (v w : Json N) → (redact_json_value config v ≡ redact_json_value config w) ↔ Agree v w
  redact_json_value_iff v w = (
    λ e.
        Agree-trans v (redact_json_value config w) w (subst (λ x. Agree v x) e (Agree-redact v))
          (Agree-sym w (redact_json_value config w) (Agree-redact w)),
    redact-Agree v w,
  )
