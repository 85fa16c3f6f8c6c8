-- ===== src/PathUtil/Segments.antt =====
-- plugin/src/core/PathUtil.cpp: the path that `joinInsideRoot` puts behind the root, in the segments of its wide string.
use notepadpp_sync.Prelude.{
  ◌≤◌, ◌≡◌, ◌≢◌, refl, ap, ◌∙◌, sym, List, [], ◌∷◌, ◌++◌, arith, Bytes, All, All-mono, ==_iff,
  replace, append-nil, map,
}
use notepadpp_sync.PathUtil.{join_segments}
use notepadpp_sync.PathUtil.Normal.{IsSafe}

-- Each segment with a backslash before it.
unfoldable pub below : List Bytes → Bytes
below [] = []
below (seg ∷ segs) = b'\\' ∷ (seg ++ below segs)

replace_behind :
    (a b : Bytes) → All (λ c. c ≢ b'/') a → replace b'/' b'\\' (a ++ b) ≡ a ++ replace b'/' b'\\' b
unfolding replace
replace_behind [] b h = refl
replace_behind (c ∷ a) b (h, hs) = ground (arith, ==_iff c b'/', replace_behind a b hs)

no_slash : (seg : Bytes) → IsSafe seg → All (λ c. c ≢ b'/') seg
no_slash seg (_, _, _, h) =
    All-mono (λ c. (c ≢ b'/') × (c ≢ b'\\') × (c ≢ b':') × (32 ≤ c)) (λ c. c ≢ b'/') (λ c p. p.0)
      seg h

-- `IsUtf8` is what the conversion does not refuse.
module _ (u : Bytes → Bytes) (IsUtf8 : Bytes → Type 0)
    (splits : (a b : Bytes)
      → IsUtf8 (a ++ b'/' ∷ b)
      → IsUtf8 a × IsUtf8 b × (u (a ++ b'/' ∷ b) ≡ u a ++ b'/' ∷ u b))
    (safe : (seg : Bytes) → IsUtf8 seg → IsSafe seg → IsSafe (u seg)) where
  pub IsSafe-segments :
      (segs : List Bytes) → IsUtf8 (join_segments segs) → All IsSafe segs → All IsSafe (map u segs)
  unfolding join_segments
  IsSafe-segments [] v h = tt
  IsSafe-segments (seg ∷ []) v (h, hs) = (safe seg v h, tt)
  IsSafe-segments (seg ∷ next ∷ rest) v (h, hs) =
      let (a, b, e) = splits seg (join_segments (next ∷ rest)) v in
      (safe seg a h, IsSafe-segments (next ∷ rest) b hs)

  pub replace-join_segments :
      (segs : List Bytes)
      → segs ≢ []
      → IsUtf8 (join_segments segs)
      → All IsSafe segs
      → b'\\' ∷ replace b'/' b'\\' (u (join_segments segs)) ≡ below (map u segs)
  unfolding join_segments below replace
  replace-join_segments [] ne v h = absurd (ne refl)
  replace-join_segments (seg ∷ []) ne v (h, hs) =
      ap (λ s. b'\\' ∷ replace b'/' b'\\' s) (sym (append-nil (u seg)))
      ∙ ap (λ s. b'\\' ∷ s) (replace_behind (u seg) [] (no_slash (u seg) (safe seg v h)))
  replace-join_segments (seg ∷ next ∷ rest) ne v (h, hs) =
      let (a, b, e) = splits seg (join_segments (next ∷ rest)) v in
      ap (λ s. b'\\' ∷ replace b'/' b'\\' s) e
      ∙ ap (λ s. b'\\' ∷ s)
          (replace_behind (u seg) (b'/' ∷ u (join_segments (next ∷ rest)))
            (no_slash (u seg) (safe seg a h)))
      ∙ ap (λ s. b'\\' ∷ (u seg ++ s)) (replace-join_segments (next ∷ rest) (λ q. cc) b hs)
