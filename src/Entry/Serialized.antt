-- ===== src/Entry/Serialized.antt =====
-- The count of packages/core/src/entryConstraints.ts against the text that `JSON.stringify` gives.
use caveat.Common.{
  ℕ, zero, suc, ◌+◌, ◌-◌, ◌≡◌, refl, sym, ap, ◌∙◌, Bool, true, false, Option, none, some, List, [],
  ◌∷◌, ◌++◌, Text, if◌then◌else◌, arith, Bool-cases, inl, inr,
}
use caveat.Entry.{
  Value, string, other, array, object, Values, end, item, Entries, none_left, entry, byte_length,
  has_id, remove_id, Task, visit, finish, Count, cyclic, counted, is_kept, kept, value_tasks,
  entry_tasks, value_count, entry_count, key_bytes, leaf_text, count_bytes, value_fuel, values_fuel,
  entries_fuel, serialized_arguments_utf8_bytes, width,
}

-- Texts one after the other; `none` is a throw.
infixr 20 ◌⊕◌
abbrev pub ◌⊕◌ : Option Text → Option Text → Option Text
none ⊕ y = none
some s ⊕ none = none
some s ⊕ some t = some (s ++ t)

module _ (quote : Text → Text) where
  -- `JSON.stringify`, with the objects that are above; what has no JSON text is left out of an object, and
  -- is `null` elsewhere.
  unfoldable mutual
    pub stringify : List ℕ → Value → Option Text
    stringify above (string s) = some (quote s)
    stringify above (other encoded) = some (leaf_text quote encoded)
    stringify above (array id vs) =
        let inner = items_text true (id ∷ above) vs in
        if has_id id above then none else some (91 ∷ []) ⊕ inner ⊕ some (93 ∷ [])
    stringify above (object id es) =
        let inner = fields_text true (id ∷ above) es in
        if has_id id above then none else some (123 ∷ []) ⊕ inner ⊕ some (125 ∷ [])

    pub items_text : Bool → List ℕ → Values → Option Text
    items_text first above end = some []
    items_text first above (item v vs) =
        some (if first then [] else 44 ∷ []) ⊕ stringify above v ⊕ items_text false above vs

    pub fields_text : Bool → List ℕ → Entries → Option Text
    fields_text first above none_left = some []
    fields_text first above (entry k v es) =
        let later = fields_text first above es in
        let behind = fields_text false above es in
        let key : Text = quote k ++ 58 ∷ [] in
        let field = some (if first then key else 44 ∷ key) ⊕ stringify above v ⊕ behind in
        if is_kept v then field else later

abbrev pub proceed : Option Text → (ℕ → Count) → Count
proceed none k = cyclic
proceed (some t) k = k (byte_length t)

byte_length-++ : (s t : Text) → byte_length (s ++ t) ≡ byte_length s + byte_length t
byte_length-++ [] t = ground arith
byte_length-++ (c ∷ s) t = ground (arith, byte_length-++ s t)

proceed-⊕ :
    (x y : Option Text) (k : ℕ → Count)
    → proceed (x ⊕ y) k ≡ proceed x (λ n. proceed y (λ m. k (n + m)))
proceed-⊕ none y k = refl
proceed-⊕ (some s) none k = refl
proceed-⊕ (some s) (some t) k = ap k (byte_length-++ s t)

proceed-cong :
    (x : Option Text) (k k' : ℕ → Count) → ((n : ℕ) → k n ≡ k' n) → proceed x k ≡ proceed x k'
proceed-cong none k k' h = refl
proceed-cong (some t) k k' h = h (byte_length t)

sizes :
    (text : Text) (b o c : ℕ)
    → width o ≡ 1
    → width c ≡ 1
    → b + 2 + byte_length text ≡ b + byte_length (o ∷ text ++ c ∷ [])
sizes text b o c p q = rw (byte_length-++ text (c ∷ []), p, q) (omega arith)

remove-absent : (id : ℕ) (ids : List ℕ) → has_id id ids ≡ false → remove_id id ids ≡ ids
remove-absent id [] h = refl
remove-absent id (i ∷ ids) h = ground (arith, remove-absent id ids)

remove-added : (id : ℕ) (ids : List ℕ) → has_id id ids ≡ false → remove_id id (id ∷ ids) ≡ ids
remove-added id ids h = ground (arith, remove-absent id ids h)

module _ (quote : Text → Text) where
  -- The loop below an array or an object, from what it makes of the members.
  below :
      (text : Option Text) (f id : ℕ) (ts : List Task) (above : List ℕ) (b : ℕ) (o c : ℕ)
      → width o ≡ 1
      → width c ≡ 1
      → has_id id above ≡ false
      → proceed text (λ n. count_bytes quote (suc f) (finish id ∷ ts) (id ∷ above) (b + 2 + n))
        ≡ proceed (some (o ∷ []) ⊕ text ⊕ some (c ∷ [])) (λ n. count_bytes quote f ts above (b + n))
  unfolding count_bytes
  below none f id ts above b o c p q new = refl
  below (some text) f id ts above b o c p q new =
      rw (remove-added id above new) (ap (count_bytes quote f ts above) (sizes text b o c p q))

-- A member with what stands before it, and the members behind it.
after_member :
    (before : Text) (x y : Option Text) (k : ℕ → Count)
    → proceed (some before ⊕ x ⊕ y) k
      ≡ proceed x (λ n. proceed y (λ m. k (byte_length before + (n + m))))
after_member before x y k =
    proceed-⊕ (some before) (x ⊕ y) k ∙ proceed-⊕ x y (λ n. k (byte_length before + n))

chain :
    (before : Text) (x y : Option Text) (start : Count) (next : ℕ → Count) (k : ℕ → Count)
    → start ≡ proceed x next
    → ((n : ℕ) → next n ≡ proceed y (λ m. k (byte_length before + (n + m))))
    → start ≡ proceed (some before ⊕ x ⊕ y) k
chain before x y start next k h h' = h ∙ proceed-cong x next _ h' ∙ sym (after_member before x y k)

behind_comma : (b c n : ℕ) → b + suc c + n ≡ b + 1 + n + c
behind_comma b c n = omega arith

first_item : (b c n : ℕ) → b + (suc c - 1) + n ≡ b + n + c
first_item b c n = omega arith

zero_plus : (n : ℕ) → 0 + n ≡ n
zero_plus n = omega arith

two_zeros : (b : ℕ) → b + 0 + 0 ≡ b + 0
two_zeros b = omega arith

regroup_first : (b n m : ℕ) → b + n + m ≡ b + (0 + (n + m))
regroup_first b n m = omega arith

regroup : (b s n m : ℕ) → b + s + n + m ≡ b + (s + (n + m))
regroup b s n m = omega arith

key-bytes :
    (quote : Text → Text) (k : Text) → byte_length (quote k ++ 58 ∷ []) ≡ byte_length (quote k) + 1
key-bytes quote k = byte_length-++ (quote k) (58 ∷ [])

behind_key : (b c q s K n : ℕ) → s ≡ q + 1 → b + (suc c - 1) + (q + 1 + K) + n ≡ b + s + n + c + K
behind_key b c q s K n e = omega arith

behind_comma_key :
    (b c q s K n : ℕ) → s ≡ q + 1 → b + suc c + (q + 1 + K) + n ≡ b + (1 + s) + n + c + K
behind_comma_key b c q s K n e = omega arith

module _ (quote : Text → Text) where
  mutual
    unfolding count_bytes stringify

    visit-text :
        (v : Value) (f : ℕ) (ts : List Task) (above : List ℕ) (b : ℕ)
        → count_bytes quote (value_fuel quote v f) (visit v ∷ ts) above b
          ≡ proceed (stringify quote above v) (λ n. count_bytes quote f ts above (b + n))
    visit-text (string s) f ts above b = refl
    visit-text (other encoded) f ts above b = refl
    visit-text (array id vs) f ts above b = elim (Bool-cases (has_id id above)) [
      | inl old ↦ rw (old) refl
      | inr new ↦ rw (new) (
          all_values-text vs (suc f) (finish id ∷ ts) (id ∷ above) (b + 2)
          ∙ below quote (items_text quote true (id ∷ above) vs) f id ts above b 91 93 refl refl new)
    ]
    visit-text (object id es) f ts above b = elim (Bool-cases (has_id id above)) [
      | inl old ↦ rw (old) refl
      | inr new ↦ rw (new) (
          all_entries-text es (suc f) (finish id ∷ ts) (id ∷ above) (b + 2)
          ∙ below quote (fields_text quote true (id ∷ above) es) f id ts above b 123 125 refl refl
              new)
    ]

    values-text :
        (vs : Values) (f : ℕ) (ts : List Task) (above : List ℕ) (b : ℕ)
        → count_bytes quote (values_fuel quote vs f) (value_tasks vs ts) above (b + value_count vs)
          ≡ proceed (items_text quote false above vs) (λ n. count_bytes quote f ts above (b + n))
    values-text end f ts above b = refl
    values-text (item v vs) f ts above b =
        chain (44 ∷ []) (stringify quote above v) (items_text quote false above vs) _ _ _
          (visit-text v (values_fuel quote vs f) (value_tasks vs ts) above
            (b + suc (value_count vs)))
          (λ n.
            ap (count_bytes quote (values_fuel quote vs f) (value_tasks vs ts) above)
              (behind_comma b (value_count vs) n)
            ∙ values-text vs f ts above (b + 1 + n)
            ∙ proceed-cong (items_text quote false above vs) _ _
                (λ m. ap (count_bytes quote f ts above) (regroup b 1 n m)))

    all_values-text :
        (vs : Values) (f : ℕ) (ts : List Task) (above : List ℕ) (b : ℕ)
        → count_bytes quote
            (values_fuel quote vs f)
            (value_tasks vs ts)
            above
            (b + (value_count vs - 1))
          ≡ proceed (items_text quote true above vs) (λ n. count_bytes quote f ts above (b + n))
    all_values-text end f ts above b = refl
    all_values-text (item v vs) f ts above b =
        chain [] (stringify quote above v) (items_text quote false above vs) _ _ _
          (visit-text v (values_fuel quote vs f) (value_tasks vs ts) above
            (b + (suc (value_count vs) - 1)))
          (λ n.
            ap (count_bytes quote (values_fuel quote vs f) (value_tasks vs ts) above)
              (first_item b (value_count vs) n)
            ∙ values-text vs f ts above (b + n)
            ∙ proceed-cong (items_text quote false above vs) _ _
                (λ m. ap (count_bytes quote f ts above) (regroup_first b n m)))

    entries-text :
        (es : Entries) (f : ℕ) (ts : List Task) (above : List ℕ) (b : ℕ)
        → count_bytes quote
            (entries_fuel quote es f)
            (entry_tasks (kept es) ts)
            above
            (b + entry_count (kept es) + key_bytes quote (kept es))
          ≡ proceed (fields_text quote false above es) (λ n. count_bytes quote f ts above (b + n))
    entries-text none_left f ts above b = ap (count_bytes quote f ts above) (two_zeros b)
    entries-text (entry k v es) f ts above b = elim (Bool-cases (is_kept v)) [
      | inr left_out ↦ rw (left_out) (entries-text es f ts above b)
      | inl stays ↦ rw (stays) (
          chain (44 ∷ quote k ++ 58 ∷ []) (stringify quote above v)
            (fields_text quote false above es) _ _ _
            (visit-text v (entries_fuel quote es f) (entry_tasks (kept es) ts) above (
              b
              + suc (entry_count (kept es))
              + (byte_length (quote k) + 1 + key_bytes quote (kept es))))
            (λ n.
              ap (count_bytes quote (entries_fuel quote es f) (entry_tasks (kept es) ts) above) (
                behind_comma_key b (entry_count (kept es)) (byte_length (quote k)) _
                  (key_bytes quote (kept es)) n (key-bytes quote k))
              ∙ entries-text es f ts above (b + (1 + byte_length (quote k ++ 58 ∷ [])) + n)
              ∙ proceed-cong (fields_text quote false above es) _ _ (λ m.
                ap (count_bytes quote f ts above)
                  (regroup b (1 + byte_length (quote k ++ 58 ∷ [])) n m))))
    ]

    all_entries-text :
        (es : Entries) (f : ℕ) (ts : List Task) (above : List ℕ) (b : ℕ)
        → count_bytes quote
            (entries_fuel quote es f)
            (entry_tasks (kept es) ts)
            above
            (b + (entry_count (kept es) - 1) + key_bytes quote (kept es))
          ≡ proceed (fields_text quote true above es) (λ n. count_bytes quote f ts above (b + n))
    all_entries-text none_left f ts above b = ap (count_bytes quote f ts above) (two_zeros b)
    all_entries-text (entry k v es) f ts above b = elim (Bool-cases (is_kept v)) [
      | inr left_out ↦ rw (left_out) (all_entries-text es f ts above b)
      | inl stays ↦ rw (stays) (
          chain (quote k ++ 58 ∷ []) (stringify quote above v) (fields_text quote false above es) _
            _ _
            (visit-text v (entries_fuel quote es f) (entry_tasks (kept es) ts) above (
              b
              + (suc (entry_count (kept es)) - 1)
              + (byte_length (quote k) + 1 + key_bytes quote (kept es))))
            (λ n.
              ap (count_bytes quote (entries_fuel quote es f) (entry_tasks (kept es) ts) above) (
                behind_key b (entry_count (kept es)) (byte_length (quote k)) _
                  (key_bytes quote (kept es)) n (key-bytes quote k))
              ∙ entries-text es f ts above (b + byte_length (quote k ++ 58 ∷ []) + n)
              ∙ proceed-cong (fields_text quote false above es) _ _ (λ m.
                ap (count_bytes quote f ts above)
                  (regroup b (byte_length (quote k ++ 58 ∷ [])) n m))))
    ]

-- The count that goes on when the text of a value is known.
abbrev pub counted_text : Option Text → Count
counted_text none = cyclic
counted_text (some text) = counted (byte_length text)

finished :
    (quote : Text → Text) (text : Option Text)
    → proceed text (λ n. count_bytes quote zero [] [] (0 + n)) ≡ counted_text text
unfolding count_bytes
finished quote none = refl
finished quote (some text) = ap counted (zero_plus (byte_length text))

-- For each value the loop comes to an end with the fuel given: with the length in UTF-8 of the text that
-- `JSON.stringify` gives, or with a throw exactly where an object stands below itself.
pub serialized_arguments_utf8_bytes-stringify :
    (quote : Text → Text) (v : Value)
    → serialized_arguments_utf8_bytes quote v ≡ counted_text (stringify quote [] v)
unfolding serialized_arguments_utf8_bytes count_bytes
serialized_arguments_utf8_bytes-stringify quote v =
    visit-text quote v zero [] [] 0 ∙ finished quote (stringify quote [] v)
