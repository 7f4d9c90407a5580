-- ===== src/Tools/Tags.antt =====
-- Values between tags: `extractXmlParam` of internal/functions/tool_executor.go.
use chat_rag.Common.{
  map-suc, ltb, ◌==◌, if◌then◌else◌, length, length-append, drop-append, take-append, append_assoc,
  Text, text, has_prefix, index, replace_all, lacks, has_prefix-append, index-append, shift,
  index-skip, lacks-append, ℕ, suc, ◌+◌, ◌-◌, ◌≡◌, refl, sym, ap, ◌∙◌, true, false, some, [], ◌∷◌,
  ◌++◌, arith,
}
use chat_rag.Tools.{done, panicked, extract_xml_param, start_tag, end_tag, slice}

-- A closing tag does not start where the opening tag does.
open_is_not_close :
    (c : ℕ) (name rest : Text)
    → (c == 62) ≡ false
    → has_prefix (name ++ 62 ∷ rest) (c ∷ (name ++ 62 ∷ [])) ≡ false
unfolding has_prefix
open_is_not_close c [] rest h = ground arith
open_is_not_close c (x ∷ name) rest h = ground (arith, open_is_not_close x name rest)

abbrev enclosed : Text → Text → Text → Text → Text
enclosed pre name v post = pre ++ (start_tag name ++ (v ++ (end_tag name ++ post)))

index-start_tag :
    (pre name rest : Text)
    → lacks 60 pre ≡ true
    → index (pre ++ (start_tag name ++ rest)) (start_tag name) ≡ some (length pre)
index-start_tag pre name rest h =
    index-append 60 pre (name ++ 62 ∷ []) (start_tag name ++ rest) h
      (has_prefix-append (start_tag name) rest)

close_after_open : (name rest : Text) → has_prefix (start_tag name ++ rest) (end_tag name) ≡ false
unfolding has_prefix
close_after_open name rest =
    rw (append_assoc name (62 ∷ []) rest, open_is_not_close 47 name rest refl) refl

index-open :
    (name rest : Text)
    → index (start_tag name ++ rest) (end_tag name)
      ≡ shift 1 (index ((name ++ 62 ∷ []) ++ rest) (end_tag name))
unfolding index
index-open name rest =
    rw (close_after_open name rest) (map-suc (index ((name ++ 62 ∷ []) ++ rest) (end_tag name)))

lacks_tag :
    (name v : Text)
    → lacks 60 name ≡ true
    → lacks 60 v ≡ true
    → lacks 60 ((name ++ 62 ∷ []) ++ v) ≡ true
lacks_tag name v hn hv =
    rw (lacks-append 60 (name ++ 62 ∷ []) v, lacks-append 60 name (62 ∷ []), hn, hv) refl

-- The first closing tag after the opening tag.
index-end_tag :
    (pre name v post : Text)
    → lacks 60 pre ≡ true
    → lacks 60 name ≡ true
    → lacks 60 v ≡ true
    → index (enclosed pre name v post) (end_tag name)
      ≡ some (length (pre ++ start_tag name) + length v)
index-end_tag pre name v post hp hn hv =
    let rest : Text = v ++ (end_tag name ++ post) in
    let inside : Text = (name ++ 62 ∷ []) ++ v in
    let found : index (inside ++ (end_tag name ++ post)) (end_tag name) ≡ some (length inside) =
      index-append 60 inside (47 ∷ (name ++ 62 ∷ [])) (end_tag name ++ post)
        (lacks_tag name v hn hv) (has_prefix-append (end_tag name) post) in
    index-skip 60 pre (47 ∷ (name ++ 62 ∷ [])) (start_tag name ++ rest) hp
    ∙ ap (shift (length pre)) (
        index-open name rest
        ∙ ap (shift 1) (
            ap (λ t. index t (end_tag name))
              (sym (append_assoc (name ++ 62 ∷ []) v (end_tag name ++ post)))
            ∙ found))
    ∙ ap some (omega (arith, length-append (name ++ 62 ∷ []) v, length-append pre (start_tag name)))

slice-append : (a v s : Text) → slice (length a) (length a + length v) (a ++ (v ++ s)) ≡ v
slice-append a v s = rw (drop-append a (v ++ s), same (length a) (length v)) (take-append v s)
  where
    same : (m n : ℕ) → m + n - m ≡ n
    same m n = omega arith

-- What is read between two positions, and the panic.
extracted :
    (content name : Text) (start stop : ℕ)
    → index content (start_tag name) ≡ some start
    → index content (end_tag name) ≡ some stop
    → extract_xml_param content name ≡ (
        if ltb stop (start + length (start_tag name))
        then panicked
        else done (
            replace_all
              (slice (start + length (start_tag name)) stop content)
              (text "\\\\")
              (text "\\")))
unfolding extract_xml_param
extracted content name start stop p q = rw (extract_xml_param, p, q) refl

close_before_open :
    (c : ℕ) (name rest : Text)
    → (c == 62) ≡ false
    → has_prefix (c ∷ (name ++ 62 ∷ rest)) (name ++ 62 ∷ []) ≡ false
unfolding has_prefix
close_before_open c [] rest h = ground arith
close_before_open c (x ∷ name) rest h = ground (arith, close_before_open x name rest)

index-close :
    (name rest : Text)
    → index (end_tag name ++ rest) (start_tag name)
      ≡ shift 1 (index ((47 ∷ (name ++ 62 ∷ [])) ++ rest) (start_tag name))
unfolding index has_prefix
index-close name rest =
    rw (append_assoc name (62 ∷ []) rest, close_before_open 47 name rest refl)
      (map-suc (index (47 ∷ (name ++ 62 ∷ rest)) (start_tag name)))

in_order : (m n : ℕ) → ltb (m + n) m ≡ false
in_order m n = ground arith

out_of_order : (m n k : ℕ) → ltb m (m + suc n + k) ≡ true
out_of_order m n k = ground arith

-- A value between the tags of its name is read back, double backslashes turned into single ones,
-- where no `<` stands before the tags, in the name or in the value.
pub extract_xml_param-enclosed :
    (pre name v post : Text)
    → lacks 60 pre ≡ true
    → lacks 60 name ≡ true
    → lacks 60 v ≡ true
    → extract_xml_param (pre ++ (start_tag name ++ (v ++ (end_tag name ++ post)))) name
      ≡ done (replace_all v (text "\\\\") (text "\\"))
extract_xml_param-enclosed pre name v post hp hn hv =
    let before : Text = pre ++ start_tag name in
    let from_eq : length pre + length (start_tag name) ≡ length before =
      sym (length-append pre (start_tag name)) in
    extracted (enclosed pre name v post) name _ _
      (index-start_tag pre name (v ++ (end_tag name ++ post)) hp)
      (index-end_tag pre name v post hp hn hv)
    ∙ rw
        (
          from_eq,
          sym (append_assoc pre (start_tag name) (v ++ (end_tag name ++ post))),
          slice-append before v (end_tag name ++ post),
        )
        (rw (in_order (length before) (length v)) refl)

-- Where a closing tag stands before the opening tag, and neither the name nor the text before the
-- closing tag nor the text between the two tags has a `<`, the code slices from the later to the
-- earlier index and panics.
pub extract_xml_param-end_tag :
    (pre name mid post : Text)
    → lacks 60 pre ≡ true
    → lacks 60 name ≡ true
    → lacks 60 mid ≡ true
    → extract_xml_param (pre ++ (end_tag name ++ (mid ++ (start_tag name ++ post)))) name ≡ panicked
extract_xml_param-end_tag pre name mid post hp hn hm =
    let rest : Text = start_tag name ++ post in
    let tail : Text = (47 ∷ (name ++ 62 ∷ [])) ++ mid in
    let content : Text = pre ++ (end_tag name ++ (mid ++ rest)) in
    let opened : index content (start_tag name) ≡ some (length pre + suc (length tail)) =
      index-skip 60 pre (name ++ 62 ∷ []) (end_tag name ++ (mid ++ rest)) hp
      ∙ ap (shift (length pre)) (
          index-close name (mid ++ rest)
          ∙ ap (shift 1) (
              ap (λ t. index t (start_tag name))
                (sym (append_assoc (47 ∷ (name ++ 62 ∷ [])) mid rest))
              ∙ index-append 60 tail (name ++ 62 ∷ []) rest (lacks_tag name mid hn hm)
                  (has_prefix-append (start_tag name) post)))
      ∙ ap some (omega arith) in
    let closed : index content (end_tag name) ≡ some (length pre) =
      index-append 60 pre (47 ∷ (name ++ 62 ∷ [])) (end_tag name ++ (mid ++ rest)) hp
        (has_prefix-append (end_tag name) (mid ++ rest)) in
    extracted content name _ _ opened closed
    ∙ rw (out_of_order (length pre) (length tail) (length (start_tag name))) refl
