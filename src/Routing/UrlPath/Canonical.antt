-- ===== src/Routing/UrlPath/Canonical.antt =====
-- The segments of a normalised path, and the spellings of a path (crates/apimock-routing/src/util/http.rs).
use mathlib.Core.List.{append_assoc}
use apimock_rs.Prelude.{
  ◌≡◌, refl, ap, ◌∙◌, sym, ◌≢◌, inl, inr, Bool, true, false, Option, none, some, List, [], ◌∷◌,
  ◌++◌, Bool-cases, unwrap_or, All, All-filter, All-append, filter,
}
use apimock_rs.Prelude.Text.{Text, codes, text_eq_iff, strip_prefix, split, join}
use apimock_rs.Prelude.Text.Split.{Lacks, split-Lacks, split-join, join-append}
use apimock_rs.Prelude.Text.Slash.{
  NoTrail, NoLead, IsSegment, strip_suffix-snoc, strip_suffix_of_NoTrail, strip_prefix_slash,
  strip_prefix_of_NoLead, NoTrail-append, join-ne-nil, NoTrail-join, NoLead-join,
}
use apimock_rs.Routing.UrlPath.{trimmed_prefix, trim_slashes, is_kept, rebuild, normalize_url_path}

abbrev pub IsNotUp : Text → Type 0
IsNotUp seg = seg ≢ codes ".."

kept-IsNotUp : (ws : List Text) → All IsNotUp (filter is_kept ws)
kept-IsNotUp [] = tt
kept-IsNotUp (w ∷ ws) = elim (Bool-cases (is_kept w)) [
  | inl e ↦ rw e (λ u. cc (e, (text_eq_iff w (codes "..")).1 u), kept-IsNotUp ws)
  | inr e ↦ rw e (kept-IsNotUp ws)
]

split-join-All :
    (ws : List Text)
    → All (Lacks b'/') ws
    → All IsNotUp ws
    → All IsNotUp (split b'/' (join b'/' ws))
split-join-All [] h k = unfold split join in ((λ e. cc e), tt)
split-join-All (w ∷ ws) h k = rw (split-join b'/' (w ∷ ws) (λ e. cc e) h) k

rebuild-IsNotUp : (s : Text) → All IsNotUp (split b'/' (rebuild s))
rebuild-IsNotUp s =
    let ws = filter is_kept (split b'/' s) in
    unfold rebuild split in
    (
      (λ e. cc e),
      split-join-All ws (All-filter (Lacks b'/') is_kept (split b'/' s) (split-Lacks b'/' s))
          (kept-IsNotUp (split b'/' s)),
    )

-- Whatever the path and the prefix, no segment of the normalised path is `..`.
pub normalize-IsNotUp :
    (path : Text) (prefix : Option Text) → All IsNotUp (split b'/' (normalize_url_path path prefix))
unfolding normalize_url_path
normalize-IsNotUp path prefix = rebuild-IsNotUp _

-- The spellings of a path with the given segments: a leading and a trailing slash at will.
abbrev pub spelled : Bool → Bool → List Text → Text
spelled true false ws = b'/' ∷ join b'/' ws
spelled true true ws = b'/' ∷ (join b'/' ws ++ codes "/")
spelled false false ws = join b'/' ws
spelled false true ws = join b'/' ws ++ codes "/"

-- A prefix as `RuleSet::new` stores it, if it has segments.
abbrev pub prefix_of : List Text → Option Text
prefix_of [] = none
prefix_of (p ∷ ps) = some (b'/' ∷ join b'/' (p ∷ ps))

abbrev root : List Text → Text
root [] = []
root (p ∷ ps) = b'/' ∷ join b'/' (p ∷ ps)

NoTrail-root : (ps : List Text) → All IsSegment ps → NoTrail (root ps)
NoTrail-root [] h = tt
NoTrail-root (p ∷ ps) h =
    NoTrail-append (b'/' ∷ []) (join b'/' (p ∷ ps)) (join-ne-nil p ps h.0) (NoTrail-join (p ∷ ps) h)

trimmed_prefix-of : (ps : List Text) → All IsSegment ps → trimmed_prefix (prefix_of ps) ≡ root ps
unfolding trimmed_prefix
trimmed_prefix-of [] h = refl
trimmed_prefix-of (p ∷ ps) h = rw (strip_suffix_of_NoTrail _ (NoTrail-root (p ∷ ps) h))

root-join :
    (ps : List Text) (w : Text) (ws : List Text)
    → root ps ++ (b'/' ∷ join b'/' (w ∷ ws)) ≡ b'/' ∷ join b'/' (ps ++ (w ∷ ws))
root-join [] w ws = refl
root-join (p ∷ ps) w ws = ap (λ t. b'/' ∷ t) (sym (join-append b'/' (p ∷ ps) w ws (λ e. cc e)))

-- What is left of a spelling once its leading slash is off.
abbrev tail_of : Bool → Text → Text
tail_of false s = s
tail_of true s = s ++ codes "/"

NoLead-append : (s t : Text) → s ≢ [] → NoLead s → NoLead (s ++ t)
NoLead-append [] t n h = absurd (n refl)
NoLead-append (c ∷ s) t n h = h

NoTrail-slash : (s : Text) → NoTrail s → s ≢ [] → NoTrail (b'/' ∷ s)
NoTrail-slash s h n = NoTrail-append (b'/' ∷ []) s n h

unslashed :
    (lead trail : Bool) (w : Text) (ws : List Text)
    → All IsSegment (w ∷ ws)
    → unwrap_or
        (strip_prefix (codes "/") (spelled lead trail (w ∷ ws)))
        (spelled lead trail (w ∷ ws))
      ≡ tail_of trail (join b'/' (w ∷ ws))
unslashed true true w ws h = rw strip_prefix_slash
unslashed true false w ws h = rw strip_prefix_slash
unslashed false false w ws h = rw (strip_prefix_of_NoLead _ (NoLead-join (w ∷ ws) h))
unslashed false true w ws h = rw (
    strip_prefix_of_NoLead _
      (NoLead-append _ (codes "/") (join-ne-nil w ws h.0) (NoLead-join (w ∷ ws) h)))

trimmed :
    (trail : Bool) (s : Text) → NoTrail s → s ≢ [] → trim_slashes (tail_of trail (b'/' ∷ s)) ≡ s
unfolding trim_slashes
trimmed true s h n = rw (strip_suffix-snoc (b'/' ∷ s), strip_prefix_slash)
trimmed false s h n = rw (strip_suffix_of_NoTrail _ (NoTrail-slash s h n), strip_prefix_slash)

merged :
    (trail : Bool) (ps : List Text) (w : Text) (ws : List Text)
    → root ps ++ (b'/' ∷ tail_of trail (join b'/' (w ∷ ws)))
      ≡ tail_of trail (b'/' ∷ join b'/' (ps ++ (w ∷ ws)))
merged false ps w ws = root-join ps w ws
merged true ps w ws =
    sym (append_assoc (root ps) (b'/' ∷ join b'/' (w ∷ ws)) (codes "/"))
    ∙ ap (λ t. t ++ codes "/") (root-join ps w ws)

All-Lacks : (ws : List Text) → All IsSegment ws → All (Lacks b'/') ws
All-Lacks [] h = tt
All-Lacks (w ∷ ws) h = (h.0.0, All-Lacks ws h.1)

append-ne-nil : (ps : List Text) (w : Text) (ws : List Text) → ps ++ (w ∷ ws) ≢ []
append-ne-nil [] w ws e = cc e
append-ne-nil (p ∷ ps) w ws e = cc e

join_append-ne-nil :
    (ps : List Text) (w : Text) (ws : List Text)
    → All IsSegment (ps ++ (w ∷ ws))
    → join b'/' (ps ++ (w ∷ ws)) ≢ []
join_append-ne-nil [] w ws h = join-ne-nil w ws h.0
join_append-ne-nil (p ∷ ps) w ws h = join-ne-nil p (ps ++ (w ∷ ws)) h.0

-- Every spelling of a path, with or without a leading or a trailing slash, has the same canonical
-- form: one leading slash, then the segments of the prefix and of the path that are not `..`.
-- The path has a segment, and no segment is empty.
pub normalize_canonical :
    (lead trail : Bool) (ps : List Text) (w : Text) (ws : List Text)
    → All IsSegment ps
    → All IsSegment (w ∷ ws)
    → normalize_url_path (spelled lead trail (w ∷ ws)) (prefix_of ps)
      ≡ b'/' ∷ join b'/' (filter is_kept (ps ++ (w ∷ ws)))
unfolding normalize_url_path
normalize_canonical lead trail ps w ws hp hw =
    let hs = All-append IsSegment ps (w ∷ ws) hp hw in
    ap (λ t. rebuild (trim_slashes (trimmed_prefix (prefix_of ps) ++ (b'/' ∷ t))))
      (unslashed lead trail w ws hw)
    ∙ ap (λ t. rebuild (trim_slashes (t ++ (b'/' ∷ tail_of trail (join b'/' (w ∷ ws))))))
        (trimmed_prefix-of ps hp)
    ∙ ap (λ t. rebuild (trim_slashes t)) (merged trail ps w ws)
    ∙ ap rebuild (
        trimmed trail (join b'/' (ps ++ (w ∷ ws))) (NoTrail-join (ps ++ (w ∷ ws)) hs)
          (join_append-ne-nil ps w ws hs))
    ∙ unfold rebuild in
      ap (λ ss. b'/' ∷ join b'/' (filter is_kept ss))
        (split-join b'/' (ps ++ (w ∷ ws)) (append-ne-nil ps w ws) (All-Lacks _ hs))
