-- ===== src/ParameterPath/RoundTrip.antt =====
-- lib/common/path.ts: `parse` reads back the text of a path that has no alias.
use genieacs.Common.Text.{slice, join}
use genieacs.Common.Eq.{JsString}
use mathlib.Core.List.{append-nil, append_assoc}
use genieacs.Common.{
  ℕ, zero, suc, ◌+◌, ◌-◌, ◌≤◌, ◌<◌, ◌≡◌, ◌≢◌, ◌⊎◌, inl, inr, refl, sym, ◌∙◌, ap, true, false,
  Option, none, some, List, [], ◌∷◌, ◌++◌, map, length, length-append, length-drop,
  take_zero-append, drop, ltb, arith, All,
}
use genieacs.ParameterPath.{
  Segment, frag, aliased, Alias, segment_string, make, char_at, legal_char, path_loop, parse_alias,
  parse_path, parse_all,
}

-- A fragment as the parser accepts it: the wildcard, or one or more legal characters.
abbrev pub IsFragment : JsString → Type 0
IsFragment s = (s ≡ b'*' ∷ []) ⊎ ((s ≢ []) × All (λ c. legal_char c ≡ true) s)

abbrev pub IsPlain : Segment → Type 0
IsPlain (frag s) = IsFragment s
IsPlain (aliased a) = ⊥

drop-cons :
    (pattern : JsString) (i c : ℕ) (r : JsString)
    → drop i pattern ≡ c ∷ r
    → (char_at pattern i ≡ c) × (drop (i + 1) pattern ≡ r) × (i < length pattern)
drop-cons [] zero c r h = cc
drop-cons [] (suc i) c r h = cc
drop-cons (x ∷ p) zero c r h = ground arith
drop-cons (x ∷ p) (suc i) c r h =
    let e : suc i + 1 ≡ suc (i + 1) = omega arith in
    let (a, b, l) = drop-cons p i c r h in rw e (a, b, omega arith)

drop_nil :
    (pattern : JsString) (i : ℕ)
    → drop i pattern ≡ []
    → i ≤ length pattern
    → (char_at pattern i ≡ 0) × (i ≡ length pattern)
drop_nil [] zero h p = (refl, refl)
drop_nil [] (suc i) h p = absurd (omega arith)
drop_nil (x ∷ p) zero h q = cc
drop_nil (x ∷ p) (suc i) h q = let (a, b) = drop_nil p i h (omega arith) in (a, ap suc b)

abbrev IsBelow : Option ℕ → ℕ → Type 0
IsBelow none i = Unit
IsBelow (some w) i = w < i

IsBelow-mono : (w : Option ℕ) (i j : ℕ) → IsBelow w i → i ≤ j → IsBelow w j
IsBelow-mono none i j h p = tt
IsBelow-mono (some v) i j h p = omega arith

legal_char-ne : (c : ℕ) → legal_char c ≡ true → (c ≢ b'[') × (c ≢ b'*') × (c ≢ b'.') × (c ≢ 0)
unfolding legal_char
legal_char-ne c h = ground arith

module _ (parse_alias : JsString → ℕ → Option (ℕ × Alias)) (pattern : JsString) where
  -- one legal character inside a fragment
  step_legal :
      (n i start : ℕ) (wild : Option ℕ) (index : ℕ) (segs : List Segment) (c : ℕ)
      → char_at pattern i ≡ c
      → i < length pattern
      → legal_char c ≡ true
      → start ≤ i
      → IsBelow wild start
      → path_loop parse_alias (suc n) pattern i start wild index segs
        ≡ path_loop parse_alias n pattern (i + 1) start wild index segs
  unfolding path_loop
  step_legal n i start none index segs c e l h s w = ground (arith, legal_char-ne c h)
  step_legal n i start (some v) index segs c e l h s w = ground (arith, legal_char-ne c h)

  step_legals :
      (todo rest : JsString) (n i start : ℕ) (wild : Option ℕ) (index : ℕ) (segs : List Segment)
      → drop i pattern ≡ todo ++ rest
      → All (λ c. legal_char c ≡ true) todo
      → start ≤ i
      → IsBelow wild start
      → (path_loop parse_alias (n + length todo) pattern i start wild index segs
          ≡ path_loop parse_alias n pattern (i + length todo) start wild index segs)
        × (drop (i + length todo) pattern ≡ rest)
  step_legals [] rest n i start wild index segs d a s w =
      let z : n + 0 ≡ n = omega arith in let z' : i + 0 ≡ i = omega arith in rw (z, z') (refl, d)
  step_legals (c ∷ todo) rest n i start wild index segs d (l, a) s w =
      let (e, d', p) = drop-cons pattern i c (todo ++ rest) d in
      let (same, left) =
        step_legals todo rest n (i + 1) start wild index segs d' a (omega arith) w in
      let z : n + suc (length todo) ≡ suc (n + length todo) = omega arith in
      let z' : i + suc (length todo) ≡ i + 1 + length todo = omega arith in
      rw (z, z') (step_legal (n + length todo) i start wild index segs c e p l s w ∙ same, left)

  -- one fragment: the loop comes to its end with the fragment's start as it was
  step_fragment :
      (s rest : JsString) (n i : ℕ) (wild : Option ℕ) (index : ℕ) (segs : List Segment)
      → drop i pattern ≡ s ++ rest
      → IsFragment s
      → IsBelow wild i
      → (wild' : Option ℕ) × (path_loop parse_alias (n + length s) pattern i i wild index segs
          ≡ path_loop parse_alias n pattern (i + length s) i wild' index segs)
        × (drop (i + length s) pattern ≡ rest)
        × (i < i + length s)
        × (slice i (i + length s) pattern ≡ s)
        × IsBelow wild' (i + length s + 1)
  unfolding path_loop
  step_fragment s rest n i wild index segs d (inl star) w =
      let (e, d', p) = drop-cons pattern i b'*' rest (d ∙ ap (λ x. x ++ rest) star) in
      let z : n + 1 ≡ suc n = omega arith in
      let cut : slice i (i + length s) pattern ≡ s =
        rw d
          (let q : i + length s - i ≡ length s = omega arith in rw q (take_zero-append s rest)) in
      let one : length s ≡ 1 = rw star in
      (some (i + 1), rw (one, z) (ground arith), rw one d', omega arith, cut, omega arith)
  step_fragment [] rest n i wild index segs d (inr (ne, a)) w = absurd (ne refl)
  step_fragment (c ∷ s) rest n i wild index segs d (inr (ne, a)) w =
      let (same, left) = step_legals (c ∷ s) rest n i i wild index segs d a (omega arith) w in
      let cut : slice i (i + suc (length s)) pattern ≡ c ∷ s = rw d (
        let q : i + suc (length s) - i ≡ suc (length s) = omega arith in
        rw q (take_zero-append (c ∷ s) rest)) in
      (
        wild,
        same,
        left,
        omega arith,
        cut,
        IsBelow-mono wild i (i + suc (length s) + 1) w (omega arith),
      )

  -- A dot behind a fragment begins the next one.
  step_dot :
      (rest : JsString) (n i start : ℕ) (wild : Option ℕ) (index : ℕ) (segs : List Segment)
      → drop i pattern ≡ b'.' ∷ rest
      → start < i
      → (path_loop parse_alias (suc n) pattern i start wild index segs
          ≡ path_loop parse_alias n pattern
              (i + 1)
              (i + 1)
              wild
              i
              (segs ++ frag (slice start i pattern) ∷ []))
        × (drop (i + 1) pattern ≡ rest)
  unfolding path_loop legal_char
  step_dot rest n i start wild index segs d s =
      let (e, d', p) = drop-cons pattern i b'.' rest d in (rw e (ground arith), d')

  step_stop :
      (n i start : ℕ) (wild : Option ℕ) (index : ℕ) (segs : List Segment)
      → drop i pattern ≡ []
      → i ≤ length pattern
      → start < i
      → path_loop parse_alias (suc n) pattern i start wild index segs
        ≡ some (length pattern, segs ++ frag (slice start i pattern) ∷ [])
  unfolding path_loop legal_char
  step_stop n i start wild index segs d p s =
      let (e, l) = drop_nil pattern i d p in rw e (ground arith)

  loop-join :
      (s : JsString) (r : List JsString) (k i : ℕ) (wild : Option ℕ) (index : ℕ)
      (segs : List Segment)
      → drop i pattern ≡ join (b'.' ∷ []) (s ∷ r)
      → All IsFragment (s ∷ r)
      → IsBelow wild i
      → path_loop parse_alias
          (suc (k + length (join (b'.' ∷ []) (s ∷ r))))
          pattern
          i
          i
          wild
          index
          segs
        ≡ some (length pattern, segs ++ map frag (s ∷ r))
  unfolding join
  loop-join s [] k i wild index segs d (f, _) w =
      let z : suc (k + length s) ≡ suc k + length s = omega arith in
      let (wild', same, left, moved, cut, _) =
        step_fragment s [] (suc k) i wild index segs (d ∙ sym (append-nil s)) f w in
      let fits : i + length s ≤ length pattern =
        omega (arith, moved, ap length d, length-drop i pattern) in
      rw z (same ∙ step_stop k (i + length s) i wild' index segs left fits moved ∙ rw cut)
  loop-join s (t ∷ r) k i wild index segs d (f, fs) w =
      let more = join (b'.' ∷ []) (t ∷ r) in
      let z : suc (k + length (s ++ (b'.' ∷ more))) ≡ suc (suc (k + length more)) + length s =
        omega (arith, length-append s (b'.' ∷ more)) in
      let (wild', same, left, moved, cut, w') =
        step_fragment s (b'.' ∷ more) (suc (suc (k + length more))) i wild index segs d f w in
      let (dot, left') =
        step_dot more (suc (k + length more)) (i + length s) i wild' index segs left moved in
      rw z (
        same
        ∙ dot
        ∙ loop-join t r k (i + length s + 1) wild' (i + length s) _ left' fs w'
        ∙ rw (cut, append_assoc))

-- the segments without an alias, as the fragments that they hold
fragments : (segments : List Segment) → All IsPlain segments → List JsString
fragments [] a = []
fragments (frag s ∷ r) (f, a) = s ∷ fragments r a
fragments (aliased x ∷ r) (f, a) = absurd f

fragments_lem :
    (segments : List Segment) (a : All IsPlain segments)
    → (map frag (fragments segments a) ≡ segments)
      × (map segment_string segments ≡ fragments segments a)
      × All IsFragment (fragments segments a)
unfolding fragments segment_string
fragments_lem [] a = (refl, refl, tt)
fragments_lem (frag s ∷ r) (f, a) =
    let (x, y, z) = fragments_lem r a in (ap (λ l. frag s ∷ l) x, ap (λ l. s ∷ l) y, (f, z))
fragments_lem (aliased x ∷ r) (f, a) = absurd f

parse_path-join :
    (d : ℕ) (s : JsString) (r : List JsString)
    → All IsFragment (s ∷ r)
    → parse_path (suc d) (join (b'.' ∷ []) (s ∷ r)) 0
      ≡ some (length (join (b'.' ∷ []) (s ∷ r)), map frag (s ∷ r))
unfolding parse_path
parse_path-join d s r a =
    let text = join (b'.' ∷ []) (s ∷ r) in
    let z : length text + 2 ≡ suc (1 + length text) = omega arith in
    rw z (loop-join (parse_alias (parse_path d)) text s r 1 0 none 0 [] refl a tt)

parse_all-join :
    (names : List JsString)
    → All IsFragment names
    → parse_all (join (b'.' ∷ []) names) ≡ some (map frag names)
unfolding parse_all
parse_all-join [] a = unfold join parse_path in refl
parse_all-join (s ∷ r) a =
    let text = join (b'.' ∷ []) (s ∷ r) in
    let z : length text + 2 ≡ suc (suc (length text)) = omega arith in
    let read : parse_path (length text + 2) text 0 ≡ some (length text, map frag (s ∷ r)) =
      rw z (parse_path-join (suc (length text)) s r a) in
    let whole : ltb (length text) (length text) ≡ false = ground arith in
    rw (read, parse_all, whole)

-- The text of a path whose segments are wildcards or non-empty runs of legal characters is
-- parsed back to exactly those segments.
pub parse_all-make :
    (segments : List Segment)
    → All IsPlain segments
    → parse_all (make segments).string ≡ some segments
unfolding make
parse_all-make segments a =
    let (x, y, z) = fragments_lem segments a in
    rw y (parse_all-join (fragments segments a) z ∙ ap some x)
