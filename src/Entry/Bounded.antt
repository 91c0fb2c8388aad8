-- ===== src/Entry/Bounded.antt =====
-- What `assertFrontmatterGraph` of packages/core/src/entryConstraints.ts lets pass.
use caveat.Common.{
  ℕ, suc, ◌+◌, ◌≡◌, ap, ◌∙◌, Bool, true, false, not, ◌&&◌, Option, none, some, List, [], ◌∷◌,
  if◌then◌else◌, ltb, leb, Bool-cases, inl, inr, arith,
}
use caveat.Entry.{
  Value, string, other, array, object, Values, end, item, Entries, none_left, entry, byte_length,
  has_id,
}
use caveat.Entry.Graph.{
  frontmatter_limit, graph_limit, depth_limit, GraphError, too_many_nodes, cycle, Walk, refused,
  walked, go_on, one_more, at_depth, visit_node, visit_items, visit_fields, within_bytes,
  assert_frontmatter_graph,
}

-- The nodes and edges of a value, and the bytes of its texts and keys.
abbrev mutual
  pub nodes : Value → ℕ
  nodes (string s) = 1
  nodes (other encoded) = 1
  nodes (array id vs) = 1 + nodes_of_items vs
  nodes (object id es) = 1 + nodes_of_fields es

  pub nodes_of_items : Values → ℕ
  nodes_of_items end = 0
  nodes_of_items (item v vs) = 1 + nodes v + nodes_of_items vs

  pub nodes_of_fields : Entries → ℕ
  nodes_of_fields none_left = 0
  nodes_of_fields (entry k v es) = 1 + nodes v + nodes_of_fields es

abbrev mutual
  pub text_bytes : Value → ℕ
  text_bytes (string s) = byte_length s
  text_bytes (other encoded) = 0
  text_bytes (array id vs) = text_bytes_of_items vs
  text_bytes (object id es) = text_bytes_of_fields es

  pub text_bytes_of_items : Values → ℕ
  text_bytes_of_items end = 0
  text_bytes_of_items (item v vs) = text_bytes v + text_bytes_of_items vs

  pub text_bytes_of_fields : Entries → ℕ
  text_bytes_of_fields none_left = 0
  text_bytes_of_fields (entry k v es) = byte_length k + text_bytes v + text_bytes_of_fields es

-- No value lies deeper than the limit, and no object stands below itself.
abbrev mutual
  pub is_sound : ℕ → List ℕ → Value → Bool
  is_sound depth above (string s) = leb depth depth_limit
  is_sound depth above (other encoded) = leb depth depth_limit
  is_sound depth above (array id vs) =
      leb depth depth_limit
      && (not (has_id id above) && are_sound_items (suc depth) (id ∷ above) vs)
  is_sound depth above (object id es) =
      leb depth depth_limit
      && (not (has_id id above) && are_sound_fields (suc depth) (id ∷ above) es)

  pub are_sound_items : ℕ → List ℕ → Values → Bool
  are_sound_items depth above end = true
  are_sound_items depth above (item v vs) = is_sound depth above v && are_sound_items depth above vs

  pub are_sound_fields : ℕ → List ℕ → Entries → Bool
  are_sound_fields depth above none_left = true
  are_sound_fields depth above (entry k v es) =
      is_sound depth above v && are_sound_fields depth above es

-- A walk without its error.
abbrev counters : Walk → Option (ℕ × ℕ)
counters (refused e) = none
counters (walked work bytes) = some (work, bytes)

abbrev if_fits : Bool → ℕ → ℕ → Option (ℕ × ℕ)
if_fits sound work bytes = if leb work graph_limit && sound then some (work, bytes) else none

-- A leaf.
leaf-counters :
    (depth w b : ℕ)
    → counters (one_more w (λ w. at_depth depth (walked w b)))
      ≡ if_fits (leb depth depth_limit) (w + 1) b
leaf-counters depth w b = ground arith

branch_within :
    (inner : Walk) (depth w n x : ℕ) (old s : Bool)
    → leb (suc w) graph_limit ≡ true
    → counters inner ≡ if_fits s (suc w + n) x
    → counters (
        if ltb graph_limit (suc w)
        then refused (too_many_nodes (suc w))
        else at_depth depth (if old then refused (cycle (suc w)) else inner))
      ≡ if_fits (leb depth depth_limit && (not old && s)) (w + (1 + n)) x
branch_within inner depth w n x true s fits h = ground arith
branch_within inner depth w n x false s fits h = ground arith

-- An array or an object, from what is below it.
branch-counters :
    (inner : Walk) (depth w n x : ℕ) (old s : Bool)
    → (leb (suc w) graph_limit ≡ true → counters inner ≡ if_fits s (suc w + n) x)
    → counters (
        if ltb graph_limit (suc w)
        then refused (too_many_nodes (suc w))
        else at_depth depth (if old then refused (cycle (suc w)) else inner))
      ≡ if_fits (leb depth depth_limit && (not old && s)) (w + (1 + n)) x
branch-counters inner depth w n x old s h = elim (Bool-cases (leb (suc w) graph_limit)) [
  | inr over ↦ ground arith
  | inl fits ↦ branch_within inner depth w n x old s fits (h fits)
]

-- A member, and those behind it.
member-counters :
    (first : Walk) (rest : ℕ → ℕ → Walk) (w n m x u : ℕ) (s r : Bool)
    → counters first ≡ if_fits s (suc w + n) x
    → ((w' b' : ℕ)
        → leb w' graph_limit ≡ true
        → counters (rest w' b') ≡ if_fits r (w' + m) (b' + u))
    → counters
        (if ltb graph_limit (suc w) then refused (too_many_nodes (suc w)) else go_on first rest)
      ≡ if_fits (s && r) (w + (1 + n + m)) (x + u)
member-counters (refused e) rest w n m x u true r h k = ground arith
member-counters (refused e) rest w n m x u false r h k = ground arith
member-counters (walked w1 b1) rest w n m x u true r h k = elim (Bool-cases (leb w1 graph_limit)) [
  | inl fits ↦ ground (arith, k w1 b1 fits)
  | inr over ↦ ground arith
]
member-counters (walked w1 b1) rest w n m x u false r h k = ground arith

plus_zero : (n : ℕ) → n ≡ n + 0
plus_zero n = omega arith

regroup : (b t u : ℕ) → b + t + u ≡ b + (t + u)
regroup b t u = omega arith

regroup_key : (b k t u : ℕ) → b + k + t + u ≡ b + (k + t + u)
regroup_key b k t u = omega arith

end-counters : (w b : ℕ) → leb w graph_limit ≡ true → some (w, b) ≡ if_fits true (w + 0) (b + 0)
end-counters w b fits = ground arith

mutual
  unfolding visit_node

  visit-counters :
      (depth : ℕ) (above : List ℕ) (v : Value) (w b : ℕ)
      → counters (visit_node depth above v w b)
        ≡ if_fits (is_sound depth above v) (w + nodes v) (b + text_bytes v)
  visit-counters depth above (string s) w b = leaf-counters depth w (b + byte_length s)
  visit-counters depth above (other encoded) w b =
      leaf-counters depth w b ∙ ap (if_fits (leb depth depth_limit) (w + 1)) (plus_zero b)
  visit-counters depth above (array id vs) w b =
      branch-counters (visit_items (suc depth) (id ∷ above) vs (suc w) b) depth w
        (nodes_of_items vs) (b + text_bytes_of_items vs) (has_id id above)
        (are_sound_items (suc depth) (id ∷ above) vs)
        (visit_items-counters (suc depth) (id ∷ above) vs (suc w) b)
  visit-counters depth above (object id es) w b =
      branch-counters (visit_fields (suc depth) (id ∷ above) es (suc w) b) depth w
        (nodes_of_fields es) (b + text_bytes_of_fields es) (has_id id above)
        (are_sound_fields (suc depth) (id ∷ above) es)
        (visit_fields-counters (suc depth) (id ∷ above) es (suc w) b)

  visit_items-counters :
      (depth : ℕ) (above : List ℕ) (vs : Values) (w b : ℕ)
      → leb w graph_limit ≡ true
      → counters (visit_items depth above vs w b)
        ≡ if_fits
            (are_sound_items depth above vs)
            (w + nodes_of_items vs)
            (b + text_bytes_of_items vs)
  visit_items-counters depth above end w b fits = end-counters w b fits
  visit_items-counters depth above (item v vs) w b fits =
      member-counters (visit_node depth above v (suc w) b) (visit_items depth above vs) w (nodes v)
        (nodes_of_items vs) (b + text_bytes v) (text_bytes_of_items vs) (is_sound depth above v)
        (are_sound_items depth above vs) (visit-counters depth above v (suc w) b)
        (visit_items-counters depth above vs)
      ∙ ap
          (if_fits (is_sound depth above v && are_sound_items depth above vs)
            (w + (1 + nodes v + nodes_of_items vs)))
          (regroup b (text_bytes v) (text_bytes_of_items vs))

  visit_fields-counters :
      (depth : ℕ) (above : List ℕ) (es : Entries) (w b : ℕ)
      → leb w graph_limit ≡ true
      → counters (visit_fields depth above es w b)
        ≡ if_fits
            (are_sound_fields depth above es)
            (w + nodes_of_fields es)
            (b + text_bytes_of_fields es)
  visit_fields-counters depth above none_left w b fits = end-counters w b fits
  visit_fields-counters depth above (entry k v es) w b fits =
      member-counters (visit_node depth above v (suc w) (b + byte_length k))
        (visit_fields depth above es) w (nodes v) (nodes_of_fields es)
        (b + byte_length k + text_bytes v) (text_bytes_of_fields es) (is_sound depth above v)
        (are_sound_fields depth above es) (visit-counters depth above v (suc w) (b + byte_length k))
        (visit_fields-counters depth above es)
      ∙ ap
          (if_fits (is_sound depth above v && are_sound_fields depth above es)
            (w + (1 + nodes v + nodes_of_fields es)))
          (regroup_key b (byte_length k) (text_bytes v) (text_bytes_of_fields es))

abbrev pub is_passed : Option GraphError → Bool
is_passed none = true
is_passed (some e) = false

within-is_passed :
    (walk : Walk) (s : Bool) (n t : ℕ)
    → counters walk ≡ if_fits s (0 + n) (0 + t)
    → is_passed (within_bytes walk) ≡ (leb n graph_limit && s && leb t frontmatter_limit)
within-is_passed (refused e) s n t h = ground arith
within-is_passed (walked w b) s n t h = ground arith

-- The check passes exactly the values with at most 10,000 nodes and edges, in which nothing lies deeper
-- than 128 and no object below itself, and whose texts and keys have at most 65,536 bytes.
pub assert_frontmatter_graph_iff :
    (v : Value)
    → is_passed (assert_frontmatter_graph v)
      ≡ (leb (nodes v) graph_limit && is_sound 0 [] v && leb (text_bytes v) frontmatter_limit)
unfolding assert_frontmatter_graph
assert_frontmatter_graph_iff v =
    within-is_passed (visit_node 0 [] v 0 0) (is_sound 0 [] v) (nodes v) (text_bytes v)
      (visit-counters 0 [] v 0 0)
