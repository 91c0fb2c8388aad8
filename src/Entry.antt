-- ===== src/Entry.antt =====
-- packages/core/src/entryConstraints.ts: the limits on what an entry may hold. Texts are code points;
-- `quote` is the JSON text of a string.
pub mod Serialized
pub mod Graph
pub mod Bounded
pub mod Tests
use caveat.Common.{
  ℕ, zero, suc, ◌+◌, ◌-◌, ◌*◌, Bool, true, false, ◌&&◌, ◌||◌, not, Option, none, some, List, [],
  ◌∷◌, ◌++◌, Text, if◌then◌else◌, ltb, nat_beq, select, any,
}

-- A value of JavaScript, as the functions see it: an object or an array has an identity, and one that
-- stands below itself is written out down to where it comes again.
mutual
  pub data Value : Type 0 where
    string : Text → Value
    -- Any other value that is no object, with its JSON text, if it has one.
    other : (encoded : Option Text) → Value
    array : (id : ℕ) → Values → Value
    object : (id : ℕ) → Entries → Value

  pub data Values : Type 0 where
    end : Values
    item : Value → Values → Values

  pub data Entries : Type 0 where
    none_left : Entries
    entry : (key : Text) → Value → Entries → Entries

-- `ENTRY_LIMITS`
abbrev pub arguments_limit : ℕ
arguments_limit = 1048576

-- The bytes of a code point in UTF-8.
abbrev pub width : ℕ → ℕ
width c = if ltb c 0x80 then 1 else if ltb c 0x800 then 2 else if ltb c 0x10000 then 3 else 4

-- `Buffer.byteLength`
abbrev pub byte_length : Text → ℕ
byte_length [] = 0
byte_length (c ∷ cs) = width c + byte_length cs

-- `assertUtf8Limit`: the size of the error that it throws, if any.
unfoldable pub assert_utf8_limit : Text → ℕ → Option ℕ
assert_utf8_limit text limit =
    let actual = byte_length text in if ltb limit actual then some actual else none

abbrev pub has_id : ℕ → List ℕ → Bool
has_id id ids = any (λ i. nat_beq i id) ids

-- `ancestors.delete`
abbrev pub remove_id : ℕ → List ℕ → List ℕ
remove_id id ids = select (λ i. not (nat_beq i id)) ids

pub data Task : Type 0 where
  visit : Value → Task
  finish : (id : ℕ) → Task

-- What the loop comes to; `unfinished` when the fuel does not suffice.
pub data Count : Type 0 where
  unfinished cyclic : Count
  counted : ℕ → Count

-- What `assertEntryArguments` throws: an error of the limit with the size, or that of a cycle.
pub data Refusal : Type 0 where
  too_large : ℕ → Refusal
  has_cycle no_end : Refusal

abbrev pub is_kept : Value → Bool
is_kept (other none) = false
is_kept _ = true

-- The filter on the entries of an object.
abbrev pub kept : Entries → Entries
kept none_left = none_left
kept (entry k v es) = let rest = kept es in if is_kept v then entry k v rest else rest

abbrev pub value_tasks : Values → List Task → List Task
value_tasks end ts = ts
value_tasks (item v vs) ts = visit v ∷ value_tasks vs ts

abbrev pub entry_tasks : Entries → List Task → List Task
entry_tasks none_left ts = ts
entry_tasks (entry k v es) ts = visit v ∷ entry_tasks es ts

abbrev pub value_count : Values → ℕ
value_count end = 0
value_count (item v vs) = suc (value_count vs)

abbrev pub entry_count : Entries → ℕ
entry_count none_left = 0
entry_count (entry k v es) = suc (entry_count es)

module _ (quote : Text → Text) where
  -- The keys, each with its colon.
  abbrev pub key_bytes : Entries → ℕ
  key_bytes none_left = 0
  key_bytes (entry k v es) = byte_length (quote k) + 1 + key_bytes es

  abbrev pub leaf_text : Option Text → Text
  leaf_text none = 110 ∷ 117 ∷ 108 ∷ 108 ∷ []
  leaf_text (some text) = text

  -- The loop of `serializedArgumentsUtf8Bytes`; the last task pushed is the head.
  unfoldable pub count_bytes : ℕ → List Task → List ℕ → ℕ → Count
  count_bytes fuel [] ancestors bytes = counted bytes
  count_bytes zero (t ∷ ts) ancestors bytes = unfinished
  count_bytes (suc fuel) (finish id ∷ ts) ancestors bytes =
      count_bytes fuel ts (remove_id id ancestors) bytes
  count_bytes (suc fuel) (visit (string s) ∷ ts) ancestors bytes =
      count_bytes fuel ts ancestors (bytes + byte_length (quote s))
  count_bytes (suc fuel) (visit (other encoded) ∷ ts) ancestors bytes =
      count_bytes fuel ts ancestors (bytes + byte_length (leaf_text encoded))
  count_bytes (suc fuel) (visit (array id vs) ∷ ts) ancestors bytes =
      let rest =
        count_bytes fuel (value_tasks vs (finish id ∷ ts)) (id ∷ ancestors)
          (bytes + 2 + (value_count vs - 1)) in
      if has_id id ancestors then cyclic else rest
  count_bytes (suc fuel) (visit (object id es) ∷ ts) ancestors bytes =
      let entries = kept es in
      let rest =
        count_bytes fuel (entry_tasks entries (finish id ∷ ts)) (id ∷ ancestors)
          (bytes + 2 + (entry_count entries - 1) + key_bytes entries) in
      if has_id id ancestors then cyclic else rest

  -- The fuel that a value takes, on top of the rest.
  abbrev mutual
    pub value_fuel : Value → ℕ → ℕ
    value_fuel (string s) f = suc f
    value_fuel (other encoded) f = suc f
    value_fuel (array id vs) f = suc (values_fuel vs (suc f))
    value_fuel (object id es) f = suc (entries_fuel es (suc f))

    pub values_fuel : Values → ℕ → ℕ
    values_fuel end f = f
    values_fuel (item v vs) f = value_fuel v (values_fuel vs f)

    pub entries_fuel : Entries → ℕ → ℕ
    entries_fuel none_left f = f
    entries_fuel (entry k v es) f =
        let rest = entries_fuel es f in
        let more = value_fuel v rest in if is_kept v then more else rest

  -- `serializedArgumentsUtf8Bytes`; `cyclic` is its throw.
  unfoldable pub serialized_arguments_utf8_bytes : Value → Count
  unfolding count_bytes
  serialized_arguments_utf8_bytes v = count_bytes (value_fuel v zero) (visit v ∷ []) [] 0

  abbrev pub limited : Count → Option Refusal
  limited unfinished = some no_end
  limited cyclic = some has_cycle
  limited (counted n) = if ltb arguments_limit n then some (too_large n) else none

  -- `assertEntryArguments`
  unfoldable pub assert_entry_arguments : Value → Option Refusal
  unfolding serialized_arguments_utf8_bytes
  assert_entry_arguments v = limited (serialized_arguments_utf8_bytes v)
