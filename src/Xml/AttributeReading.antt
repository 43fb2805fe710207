-- ===== src/Xml/AttributeReading.antt =====
-- lib/xml-parser.ts: what the loop of `parseAttrs` does on one name and on one value.
use mathlib.Core.List.{append_assoc}
use genieacs.Common.Eq.{JsString}
use genieacs.Common.Text.{slice}
use genieacs.Common.{
  ℕ, suc, ◌+◌, ◌≤◌, ◌<◌, ◌≡◌, refl, sym, ◌∙◌, ap, true, false, List, [], ◌∷◌, ◌++◌, length,
  length-append, drop, ltb, leb, arith, All, All-append,
}
use genieacs.Xml.Attributes.{
  Attribute, AttrScan, ok, close_quote, at_quote, at_colon, at_equal, attr_step, attr_loop,
  is_empty,
}
use genieacs.Xml.Written.{
  name_char, value_char, qualified, IsSolid, All-name_char, trim-solid, trim_space-solid, drop_at,
  slice_at,
}

module _ (string : JsString) where
  attr_step-name : (i c : ℕ) (s : AttrScan) → name_char c ≡ true → attr_step string i c s ≡ ok s
  unfolding attr_step name_char
  attr_step-name i c s h = ground arith

  pass_name :
      (todo rest : JsString) (i : ℕ) (s : AttrScan)
      → All (λ c. name_char c ≡ true) todo
      → attr_loop string i (todo ++ rest) s ≡ attr_loop string (i + length todo) rest s
  unfolding attr_loop
  pass_name [] rest i s a = let z : i + 0 ≡ i = omega arith in rw z
  pass_name (c ∷ todo) rest i s (h, a) =
      let z : i + suc (length todo) ≡ i + 1 + length todo = omega arith in
      rw (attr_step-name i c s h, z) (pass_name todo rest (i + 1) s a)

  attr_step-value :
      (i c : ℕ) (s : AttrScan) → value_char c ≡ true → s.state ≡ 34 → attr_step string i c s ≡ ok s
  unfolding attr_step value_char at_colon at_equal
  attr_step-value i c s h q = ground arith

  pass_value :
      (todo rest : JsString) (i : ℕ) (s : AttrScan)
      → All (λ c. value_char c ≡ true) todo
      → s.state ≡ 34
      → attr_loop string i (todo ++ rest) s ≡ attr_loop string (i + length todo) rest s
  unfolding attr_loop
  pass_value [] rest i s a q = let z : i + 0 ≡ i = omega arith in rw z
  pass_value (c ∷ todo) rest i s (h, a) q =
      let z : i + suc (length todo) ≡ i + 1 + length todo = omega arith in
      rw (attr_step-value i c s h q, z) (pass_value todo rest (i + 1) s a q)

  -- The state between two attributes.
  abbrev pub between_attrs : List Attribute → JsString → JsString → ℕ → ℕ → AttrScan
  between_attrs attrs ns local idx colon = record {
    attrs = attrs;
    state = 0;
    name = [];
    namespace = ns;
    local_name = local;
    idx = idx;
    colon_idx = colon;
  }

  -- The state behind the equals sign of `a`.
  abbrev pub named : Attribute → AttrScan → ℕ → AttrScan
  named a s colon = record s {
    name = a.name;
    namespace = a.namespace;
    local_name = a.local_name;
    colon_idx = colon;
  }

  -- the value, from its opening quote at `i` on
  pub read_value :
      (a : Attribute) (i : ℕ) (rest : JsString) (s : AttrScan)
      → All (λ c. value_char c ≡ true) a.value
      → is_empty a.name ≡ false
      → drop (i + 1) string ≡ a.value ++ (34 ∷ rest)
      → s.state ≡ 0
      → attr_loop string i (34 ∷ (a.value ++ (34 ∷ rest))) (named a s s.colon_idx)
        ≡ attr_loop string (i + 2 + length a.value) rest (
            between_attrs
              (s.attrs ++ a ∷ [])
              a.namespace
              a.local_name
              (i + 2 + length a.value)
              s.colon_idx)
  unfolding attr_loop attr_step at_quote close_quote
  read_value a i rest s v n d q =
      let z : i + 1 + length a.value + 1 ≡ i + 2 + length a.value = omega arith in
      rw (q) (
        pass_value a.value (34 ∷ rest) (i + 1)
          (record (named a s s.colon_idx) { state = 34; idx = i }) v refl
        ∙ rw (n, slice_at (i + 1) string a.value (34 ∷ rest) d, z))

  module _ (attrs : List Attribute) (ns0 local0 : JsString) (i colon : ℕ) (l : colon ≤ i) where
    -- a name without a prefix, from the space at `i` on
    read_plain :
        (local rest : JsString)
        → All (λ c. name_char c ≡ true) local
        → drop i string ≡ 32 ∷ (local ++ (61 ∷ rest))
        → attr_loop string i (32 ∷ (local ++ (61 ∷ rest))) (between_attrs attrs ns0 local0 i colon)
          ≡ attr_loop string
              (i + 2 + length local)
              rest
              (record (between_attrs attrs [] local i colon) { name = local })
    unfolding attr_loop attr_step at_equal
    read_plain local rest a d =
        let z : i + 1 + length local + 1 ≡ i + 2 + length local = omega arith in
        let y : i + 1 + length local ≡ i + length (32 ∷ local) = omega arith in
        let late : ltb i colon ≡ false = ground arith in
        pass_name local (61 ∷ rest) (i + 1) (between_attrs attrs ns0 local0 i colon) a
        ∙ rw (
          late,
          z,
          y,
          slice_at i string (32 ∷ local) (61 ∷ rest) d,
          trim_space-solid local (All-name_char local a),
        )

    at_colon-between :
        (k : ℕ)
        → at_colon k (between_attrs attrs ns0 local0 i colon) ≡ between_attrs attrs ns0 local0 i k
    unfolding at_colon
    at_colon-between k = let early : leb colon i ≡ true = ground arith in rw early

    at_equal_prefixed :
        (j k : ℕ) (name ns local : JsString)
        → i < k
        → slice i j string ≡ 32 ∷ name
        → All IsSolid name
        → slice i k string ≡ 32 ∷ ns
        → All IsSolid ns
        → slice (k + 1) j string ≡ local
        → All IsSolid local
        → at_equal string j (between_attrs attrs ns0 local0 i k)
          ≡ ok (record (between_attrs attrs ns local i k) { name = name })
    unfolding at_equal
    at_equal_prefixed j k name ns local p f sf g sg h sh =
        let past : ltb i k ≡ true = ground arith in
        rw (past, f, g, h, trim_space-solid name sf, trim_space-solid ns sg, trim-solid local sh)

    -- a name with a prefix
    read_prefixed :
        (ns local rest : JsString)
        → All (λ c. name_char c ≡ true) ns
        → All (λ c. name_char c ≡ true) local
        → drop i string ≡ 32 ∷ (ns ++ (58 ∷ (local ++ (61 ∷ rest))))
        → attr_loop string i
            (32 ∷ (ns ++ (58 ∷ (local ++ (61 ∷ rest)))))
            (between_attrs attrs ns0 local0 i colon)
          ≡ attr_loop string
              (i + 3 + length ns + length local)
              rest
              (record (between_attrs attrs ns local i (i + 1 + length ns)) {
                name = ns ++ (58 ∷ local);
              })
    unfolding attr_loop attr_step
    read_prefixed ns local rest a b d =
        let solid_ns = All-name_char ns a in
        let solid_local = All-name_char local b in
        let k : i + length (32 ∷ ns) ≡ i + 1 + length ns = omega arith in
        let k' : i + length (32 ∷ (ns ++ (58 ∷ []))) ≡ i + 1 + length ns + 1 =
          omega (arith, length-append ns (58 ∷ [])) in
        let whole : 32 ∷ (ns ++ (58 ∷ (local ++ (61 ∷ rest))))
            ≡ (32 ∷ (ns ++ (58 ∷ local))) ++ (61 ∷ rest) =
          ap (λ r. 32 ∷ r) (sym (append_assoc ns (58 ∷ local) (61 ∷ rest))) in
        let parts : 32 ∷ (ns ++ (58 ∷ (local ++ (61 ∷ rest))))
            ≡ (32 ∷ (ns ++ (58 ∷ []))) ++ (local ++ (61 ∷ rest)) =
          ap (λ r. 32 ∷ r) (sym (append_assoc ns (58 ∷ []) (local ++ (61 ∷ rest)))) in
        let j : i + length (32 ∷ (ns ++ (58 ∷ local))) ≡ i + 1 + length ns + 1 + length local =
          omega (arith, length-append ns (58 ∷ local)) in
        let z : i + 1 + length ns + 1 + length local + 1 ≡ i + 3 + length ns + length local =
          omega arith in
        let name =
          rw j at (slice_at i string (32 ∷ (ns ++ (58 ∷ local))) (61 ∷ rest) (d ∙ whole)) in
        let namespace = rw k at (slice_at i string (32 ∷ ns) (58 ∷ (local ++ (61 ∷ rest))) d) in
        let behind =
          rw k' at (drop_at i string (32 ∷ (ns ++ (58 ∷ []))) (local ++ (61 ∷ rest)) (d ∙ parts)) in
        let local_name = slice_at (i + 1 + length ns + 1) string local (61 ∷ rest) behind in
        let equal =
          at_equal_prefixed (i + 1 + length ns + 1 + length local) (i + 1 + length ns)
            (ns ++ (58 ∷ local)) ns local (omega arith) name
            (All-append IsSolid ns (58 ∷ local) solid_ns (refl, solid_local)) namespace solid_ns
            local_name solid_local in
        pass_name ns (58 ∷ (local ++ (61 ∷ rest))) (i + 1) (between_attrs attrs ns0 local0 i colon)
          a
        ∙ rw (at_colon-between (i + 1 + length ns)) (
            pass_name local (61 ∷ rest) (i + 1 + length ns + 1)
              (between_attrs attrs ns0 local0 i (i + 1 + length ns)) b
            ∙ rw (equal, z))

  -- the name of an attribute, from the space at `i` to behind the equals sign
  pub read_name :
      (attrs : List Attribute) (ns0 local0 : JsString) (i colon : ℕ) (ns local rest : JsString)
      → colon ≤ i
      → All (λ c. name_char c ≡ true) ns
      → All (λ c. name_char c ≡ true) local
      → drop i string ≡ 32 ∷ (qualified ns local ++ (61 ∷ rest))
      → (k : ℕ) × (k ≤ i + 2 + length (qualified ns local))
        × (attr_loop string i
              (32 ∷ (qualified ns local ++ (61 ∷ rest)))
              (between_attrs attrs ns0 local0 i colon)
            ≡ attr_loop string
                (i + 2 + length (qualified ns local))
                rest
                (record (between_attrs attrs ns local i k) { name = qualified ns local }))
  read_name attrs ns0 local0 i colon [] local rest l a b d =
      (colon, omega arith, read_plain attrs ns0 local0 i colon l local rest b d)
  read_name attrs ns0 local0 i colon (c ∷ ns) local rest l a b d =
      let e : (c ∷ ns) ++ (58 ∷ local) ++ (61 ∷ rest) ≡ (c ∷ ns) ++ (58 ∷ (local ++ (61 ∷ rest))) =
        append_assoc (c ∷ ns) (58 ∷ local) (61 ∷ rest) in
      let z : i + 2 + length ((c ∷ ns) ++ (58 ∷ local)) ≡ i + 3 + length (c ∷ ns) + length local =
        omega (arith, length-append (c ∷ ns) (58 ∷ local)) in
      (
        i + 1 + length (c ∷ ns),
        omega (arith, z),
        rw (z, e) (read_prefixed attrs ns0 local0 i colon l (c ∷ ns) local rest a b (rw e at d)),
      )
