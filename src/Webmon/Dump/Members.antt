-- ===== src/Webmon/Dump/Members.antt =====
-- Webmon/Dump: the objects as JSON has them.
use llprof.Base.{
  ℕ, ◌≡◌, refl, ap, ◌∙◌, sym, true, false, Option, some, List, [], ◌∷◌, ◌++◌, Map, Text, codes,
  decimal, ◌%◌, ◌^◌, bind_some,
}
use mathlib.Core.List.{append_assoc, append-nil}
use llprof.Http.Json.{JsonWriter, new_writer, write, dict_add, close, write_string, write_list}
use llprof.Http.JsonText.{commas, write_list-commas}
use llprof.Webmon.Slices.{Node}
use llprof.Webmon.Nodes.{get_name_from_id}
use llprof.Webmon.Dump.Spelling.{
  signed, write_value-signed, texts_same, shown, quoted, write_string-quoted, name_of, name_text,
}
use llprof.Webmon.Dump.{
  write_value, texts, profile_values_to_stream, printable, add_members, write_dict, write_node,
}

-- A member as its object has it.
abbrev pub member : Text × Text → Text
member (name, value) = quoted name ++ (codes ": " ++ value)

abbrev pub object : List (Text × Text) → Text
object members = codes "{" ++ (commas (texts member members) ++ codes "}")

abbrev pub numbers : List ℕ → Text
numbers vec = codes "[" ++ (commas (texts signed vec) ++ codes "]")

regroup : (x o n c v : Text) → (((x ++ o) ++ n) ++ c) ++ v ≡ x ++ (o ++ (n ++ (c ++ v)))
regroup x o n c v =
    append_assoc ((x ++ o) ++ n) c v
    ∙ append_assoc (x ++ o) n (c ++ v)
    ∙ append_assoc x o (n ++ (c ++ v))

add_first :
    (name value : Text)
    → dict_add name value (new_writer [])
      ≡ some (record { strm = codes "{" ++ member (name, value); closed = false; first = false })
unfolding dict_add write
add_first name value =
    ap (λ strm. some (record { strm = strm; closed = false; first = false }))
      (regroup [] (codes "{") (write_string name) (codes ": ") value
        ∙ ap (λ q. codes "{" ++ (q ++ (codes ": " ++ value))) (write_string-quoted name))

add_next :
    (name value strm : Text)
    → dict_add name value (record { strm = strm; closed = false; first = false })
      ≡ some (record {
        strm = strm ++ (codes ", " ++ member (name, value));
        closed = false;
        first = false;
      })
unfolding dict_add write
add_next name value strm =
    ap (λ strm. some (record { strm = strm; closed = false; first = false }))
      (regroup strm (codes ", ") (write_string name) (codes ": ") value
        ∙ ap (λ q. strm ++ (codes ", " ++ (q ++ (codes ": " ++ value)))) (write_string-quoted name))

-- More members behind a first one, and the bracket.
abbrev tail : List (Text × Text) → Text
tail [] = []
tail (m ∷ members) = codes ", " ++ (member m ++ tail members)

commas-tail :
    (m : Text × Text) (members : List (Text × Text))
    → commas (texts member (m ∷ members)) ≡ member m ++ tail members
commas-tail m [] = sym (append-nil (member m))
commas-tail m (next ∷ members) =
    append_assoc (member m) (codes ", ") (commas (texts member (next ∷ members)))
    ∙ ap (λ t. member m ++ (codes ", " ++ t)) (commas-tail next members)

add_members-tail :
    (members : List (Text × Text)) (strm : Text)
    → add_members members (record { strm = strm; closed = false; first = false })
      ≡ some (record { strm = strm ++ tail members; closed = false; first = false })
unfolding add_members
add_members-tail [] strm =
    ap (λ strm. some (record { strm = strm; closed = false; first = false }))
      (sym (append-nil strm))
add_members-tail ((name, value) ∷ members) strm =
    let m = member (name, value) in
    bind_some (dict_add name value (record { strm = strm; closed = false; first = false }))
      (add_members members) _ (add_next name value strm)
    ∙ add_members-tail members (strm ++ (codes ", " ++ m))
    ∙ ap (λ strm. some (record { strm = strm; closed = false; first = false }))
        (append_assoc strm (codes ", " ++ m) (tail members)
          ∙ ap (λ t. strm ++ t) (append_assoc (codes ", ") m (tail members)))

add_members-all :
    (m : Text × Text) (members : List (Text × Text))
    → add_members (m ∷ members) (new_writer [])
      ≡ some
          (record { strm = (codes "{" ++ member m) ++ tail members; closed = false; first = false })
unfolding add_members
add_members-all (name, value) members =
    bind_some (dict_add name value (new_writer [])) (add_members members) _ (add_first name value)
    ∙ add_members-tail members (codes "{" ++ member (name, value))

close_dict :
    (strm : Text)
    → close (codes "{") (codes "}") (record { strm = strm; closed = false; first = false })
      ≡ some (record { strm = (strm ++ []) ++ codes "}"; closed = true; first = false })
unfolding close write
close_dict strm = refl

write_dict-some :
    (members : List (Text × Text)) (w w' : JsonWriter)
    → add_members members (new_writer []) ≡ some w
    → close (codes "{") (codes "}") w ≡ some w'
    → write_dict members ≡ some w'.strm
unfolding write_dict
write_dict-some members w w' added closed = rw (added, closed, write_dict) refl

no_members : write_dict [] ≡ some (object [])
unfolding write_dict add_members close write
no_members = refl

pub write_dict-object : (members : List (Text × Text)) → write_dict members ≡ some (object members)
write_dict-object [] = no_members
write_dict-object (m ∷ members) =
    let strm = (codes "{" ++ member m) ++ tail members in
    write_dict-some (m ∷ members) _ _ (add_members-all m members) (close_dict strm)
    ∙ ap some (
        ap (λ t. t ++ codes "}")
          (append-nil strm
            ∙ append_assoc (codes "{") (member m) (tail members)
            ∙ ap (λ t. codes "{" ++ t) (sym (commas-tail m members)))
        ∙ append_assoc (codes "{") (commas (texts member (m ∷ members))) (codes "}"))

profile_values_some :
    (vec : List ℕ) (w : JsonWriter)
    → write_list (texts write_value vec) [] ≡ some w
    → profile_values_to_stream vec ≡ some w.strm
unfolding profile_values_to_stream
profile_values_some vec w e = rw (e, profile_values_to_stream) refl

pub profile_values-numbers : (vec : List ℕ) → profile_values_to_stream vec ≡ some (numbers vec)
profile_values-numbers vec =
    let (w, e, strm, _) = write_list-commas (texts write_value vec) [] in
    profile_values_some vec w e
    ∙ ap some strm
    ∙ ap (λ list. some (codes "[" ++ (commas list ++ codes "]")))
        (texts_same write_value signed vec write_value-signed)

-- A node with the text of its name.
abbrev node_with : Node → Text → Text
node_with node name = object (
    (codes "id", decimal (node.id % 2 ^ 32))
    ∷ (codes "pid", decimal (node.parent_id % 2 ^ 32))
    ∷ (codes "name", name)
    ∷ (codes "all", numbers node.all_values)
    ∷ (codes "cld", numbers node.children_values)
    ∷ (codes "cc", decimal node.call_count)
    ∷ [])

-- Two ids in 32 bits, the name without characters that are not printed, the values as signed
-- numbers, and the calls.
abbrev pub node_object : Map Text → Node → Text
node_object names node = node_with node (quoted (shown (name_of names node.node_name)))

node_values : Map Text → Node → Text → Text → Option Text
node_values names node all cld = write_dict (
    (codes "id", decimal (node.id % 2 ^ 32))
    ∷ (codes "pid", decimal (node.parent_id % 2 ^ 32))
    ∷ (codes "name", write_string (printable (get_name_from_id names node.node_name)))
    ∷ (codes "all", all)
    ∷ (codes "cld", cld)
    ∷ (codes "cc", decimal node.call_count)
    ∷ [])

write_node-some :
    (names : Map Text) (node : Node) (all cld : Text)
    → profile_values_to_stream node.all_values ≡ some all
    → profile_values_to_stream node.children_values ≡ some cld
    → write_node names node ≡ node_values names node all cld
unfolding write_node node_values
write_node-some names node all cld e e' = rw (e, e', write_node) refl

pub write_node-node_object :
    (names : Map Text) (node : Node) → write_node names node ≡ some (node_object names node)
unfolding node_values
write_node-node_object names node =
    write_node-some names node (numbers node.all_values) (numbers node.children_values)
      (profile_values-numbers node.all_values) (profile_values-numbers node.children_values)
    ∙ write_dict-object (
        (codes "id", decimal (node.id % 2 ^ 32))
        ∷ (codes "pid", decimal (node.parent_id % 2 ^ 32))
        ∷ (codes "name", write_string (printable (get_name_from_id names node.node_name)))
        ∷ (codes "all", numbers node.all_values)
        ∷ (codes "cld", numbers node.children_values)
        ∷ (codes "cc", decimal node.call_count)
        ∷ [])
    ∙ ap (λ name. some (node_with node name)) (name_text names node.node_name)
