-- ===== src/Remote/Registry/Saved.antt =====
-- A registry that was saved loads as it was.
use llauncher.Base.{
  ◌∙◌, Option, ℕ, Bool, true, false, ◌&&◌, ◌||◌, none, some, ◌==◌, nat_eq, ◌≡◌, refl, ap, arith, [],
  ◌∷◌, inl, inr, if◌then◌else◌, Bool-cases,
}
use llauncher.Base.Text.{Text, codes, text_eq}
use llauncher.Base.Dict.{lookup-put, lookup, put}
use llauncher.Remote.Node.{non_empty, RemoteNode, offline, new_node, accepts, count_code}
use llauncher.Remote.Registry.Tokens.{
  Distinct, or_else, stamped_key, stamped, key_of, lookup-same, lookup-populate_tokens,
  lookup-saved_tokens, saved_tokens-Distinct, tokens_of-written_tokens, lookup-populate_local_token,
}
use llauncher.Remote.Registry.{
  saved_nodes, Nodes, populate_tokens, saved_tokens, load_entries, Loading, mend_host, mend_local,
  keep_node, load_named, load_entry, saved_entry, Files, save, load, load_file,
  populate_local_token, finish_load,
}

-- A node that can be loaded again: the client accepts its fields, and neither migration touches it.
pub record IsSettled (key : Text) (node : RemoteNode) : Type 0 where
  pub accepted : accepts node.name node.host node.port node.timeout ≡ true
  pub no_local_name : (key == codes "local" && node.host == codes "localhost") ≡ false

-- The node as it is made again: its key comes from the other file, and it has not been seen.
abbrev pub unseen : RemoteNode → RemoteNode
unseen node = record node { api_key = none; status = offline; last_seen = none }

mend_host-accepted :
    (name host : Text) (port timeout : ℕ)
    → accepts name host port timeout ≡ true
    → mend_host host port ≡ (host, port, false)
unfolding mend_host accepts
mend_host-accepted name host port timeout h =
    let one : (count_code b':' host == 1) ≡ false = ground (arith, h) in rw one

mend_local-other :
    (key host : Text)
    → (key == codes "local" && host == codes "localhost") ≡ false
    → mend_local key host ≡ (host, false)
unfolding mend_local
mend_local-other key host h = rw h

new_node-unseen :
    (node : RemoteNode)
    → accepts node.name node.host node.port node.timeout ≡ true
    → new_node node.name node.host node.port node.timeout none ≡ some (unseen node)
unfolding new_node
new_node-unseen node h = rw h

or-false : (b : Bool) → (b || false || false) ≡ b
or-false true = refl
or-false false = refl

load_entry-saved :
    (key : Text) (node : RemoteNode) (loading : Loading)
    → IsSettled key node
    → load_entry key (saved_entry node) (some node.name) (some node.host) loading
      ≡ (put key (unseen node) loading.0, loading.1)
unfolding load_entry load_named keep_node
load_entry-saved key node loading s =
    rw
      (
        mend_host-accepted node.name node.host node.port node.timeout s.accepted,
        mend_local-other key node.host s.no_local_name,
        new_node-unseen node s.accepted,
      )
      (ap (λ b. (put key (unseen node) loading.0, b)) (or-false loading.1))

-- The nodes made again one after the other.
remade : Nodes → Nodes → Nodes
remade [] acc = acc
remade ((key, node) ∷ d) acc = remade d (put key (unseen node) acc)

abbrev pub AllSettled : Nodes → Type 0
AllSettled [] = Unit
AllSettled ((key, node) ∷ d) = IsSettled key node × AllSettled d

load_entries-saved :
    (d acc : Nodes) (b : Bool)
    → AllSettled d
    → load_entries (saved_nodes d) (acc, b) ≡ (remade d acc, b)
unfolding load_entries saved_nodes remade
load_entries-saved [] acc b s = refl
load_entries-saved ((key, node) ∷ d) acc b s =
    ap (load_entries (saved_nodes d)) (load_entry-saved key node (acc, b) s.0)
    ∙ load_entries-saved d (put key (unseen node) acc) b s.1

abbrev pub map_option : {V W : Type 0} → (V → W) → Option V → Option W
map_option f none = none
map_option f (some v) = some (f v)

lookup-remade :
    (j : Text) (d acc : Nodes)
    → Distinct d
    → lookup j (remade d acc) ≡ or_else (map_option unseen (lookup j d)) (lookup j acc)
unfolding remade lookup
lookup-remade j [] acc h = refl
lookup-remade j ((k, n) ∷ d) acc h = elim (Bool-cases (k == j)) [
  | inl b ↦ rw b (
      lookup-remade j d (put k (unseen n) acc) h.1
      ∙ ap (λ o. or_else (map_option unseen o) (lookup j (put k (unseen n) acc)))
          (lookup-same k j d b h.0)
      ∙ lookup-put k j (unseen n) acc
      ∙ ap (λ x. if x then some (unseen n) else lookup j acc) b)
  | inr b ↦ rw b (
      lookup-remade j d (put k (unseen n) acc) h.1
      ∙ ap (or_else (map_option unseen (lookup j d)))
          (lookup-put k j (unseen n) acc ∙ ap (λ x. if x then some (unseen n) else lookup j acc) b))
]

-- The node of a registry that was saved and loaded.
abbrev pub reloaded : RemoteNode → RemoteNode
reloaded node = record (unseen node) { api_key = non_empty node.api_key }

stamped-unseen :
    (key : Option Text) (node : RemoteNode)
    → stamped key (some (unseen node)) ≡ some (record (unseen node) { api_key = key })
unfolding stamped stamped_key
stamped-unseen none node = refl
stamped-unseen (some token) node = refl

stamped-reloaded :
    (o : Option RemoteNode) → stamped (key_of o) (map_option unseen o) ≡ map_option reloaded o
unfolding stamped
stamped-reloaded none = refl
stamped-reloaded (some node) = stamped-unseen (non_empty node.api_key) node

or_else-none_node : (o : Option RemoteNode) → or_else o none ≡ o
or_else-none_node none = refl
or_else-none_node (some t) = refl

load-saved :
    (token : Option Text) (d : Nodes) (files : Files)
    → AllSettled d
    → load token (save d files)
      ≡ (populate_tokens (saved_tokens d) (populate_local_token token (remade d [])), save d files)
unfolding load load_file save
load-saved token d files s =
    ap (λ l. finish_load token l (save d files)) (load_entries-saved d [] false s)
    ∙ ap (λ t. (populate_tokens t (populate_local_token token (remade d [])), save d files))
        (tokens_of-written_tokens (saved_tokens d) files.tokens_file)

-- A registry in which each name stands once, and whose nodes can all be loaded again, is written by
-- `_save` such that `_load` finds under every name but "local" the same node, with its key and not
-- seen yet, and leaves the two files as they are, whatever the files and the local token were.
pub load-save :
    (j : Text) (token : Option Text) (d : Nodes) (files : Files)
    → Distinct d
    → AllSettled d
    → (j == codes "local") ≡ false
    → (lookup j (load token (save d files)).0 ≡ map_option reloaded (lookup j d))
      × ((load token (save d files)).1 ≡ save d files)
unfolding lookup
load-save j token d files h s other = (
  ap (λ l. lookup j l.0) (load-saved token d files s)
      ∙ lookup-populate_tokens j (saved_tokens d) (populate_local_token token (remade d []))
          (saved_tokens-Distinct d h) other
      ∙ ap (stamped (lookup j (saved_tokens d))) (
          lookup-populate_local_token j token (remade d []) other
          ∙ lookup-remade j d [] h
          ∙ or_else-none_node (map_option unseen (lookup j d)))
      ∙ ap (λ o. stamped o (map_option unseen (lookup j d))) (lookup-saved_tokens j d h other)
      ∙ stamped-reloaded (lookup j d),
  ap (λ l. l.1) (load-saved token d files s),
)
