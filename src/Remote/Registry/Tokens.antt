-- ===== src/Remote/Registry/Tokens.antt =====
-- How the tokens of a registry are written, and stamped on the nodes that are loaded.
use llauncher.Base.{
  ◌∙◌, Option-cases, Option, true, false, none, some, ◌==◌, nat_eq, ◌≡◌, refl, ap, arith, [], ◌∷◌,
  inl, inr, if◌then◌else◌, Bool-cases, ==-eq, ==-self, sym,
}
use llauncher.Base.Text.{Text, codes, text_eq}
use llauncher.Base.Dict.{lookup-put, has_key, lookup, Dict}
use llauncher.Remote.Node.{non_empty, RemoteNode}
use llauncher.Remote.Registry.{
  populate_token, unless_local, Nodes, populate_tokens, saved_tokens, stamp_remote, stamp_key,
  with_key, populate_local_token, stamp_local, written_tokens, tokens_of,
}

-- Every entry under its own key once.
abbrev pub Distinct : {V : Type 0} → Dict Text V → Type 0
Distinct [] = Unit
Distinct ((k, v) ∷ d) = (has_key k d ≡ false) × Distinct d

abbrev pub or_else : {V : Type 0} → Option V → Option V → Option V
or_else none o = o
or_else (some v) o = some v

pub lookup-absent :
    {V : Type 0} (k : Text) (d : Dict Text V) → has_key k d ≡ false → lookup k d ≡ none
lookup-absent k d h = elim (Option-cases (lookup k d)) [
  | inl e ↦ e
  | inr (v, e) ↦ ground (arith, h, e)
]

pub lookup-same :
    {V : Type 0} (k j : Text) (d : Dict Text V)
    → (k == j) ≡ true
    → has_key k d ≡ false
    → lookup j d ≡ none
lookup-same k j d b h = ap (λ q. lookup q d) (sym (==-eq k j b)) ∙ lookup-absent k d h

-- A token for a node that has none.
unfoldable pub stamped_key : Text → RemoteNode → Option Text → RemoteNode
stamped_key token node none = record node { api_key = some token }
stamped_key token node (some key) = node

unfoldable pub stamped : Option Text → Option RemoteNode → Option RemoteNode
unfolding stamped_key
stamped none o = o
stamped (some token) none = none
stamped (some token) (some node) = some (stamped_key token node node.api_key)

lookup-stamp_key :
    (j name token : Text) (loaded : Nodes) (node : RemoteNode) (key : Option Text)
    → lookup name loaded ≡ some node
    → lookup j (stamp_key name token node key loaded)
      ≡ (if name == j then some (stamped_key token node key) else lookup j loaded)
unfolding stamp_key stamped_key
lookup-stamp_key j name token loaded node none e = lookup-put name j (with_key token node) loaded
lookup-stamp_key j name token loaded node (some key) e = elim (Bool-cases (name == j)) [
  | inl b ↦ rw b (ap (λ q. lookup q loaded) (sym (==-eq name j b)) ∙ e)
  | inr b ↦ rw b
]

lookup-stamp_remote :
    (j name token : Text) (loaded : Nodes) (o : Option RemoteNode)
    → lookup name loaded ≡ o
    → lookup j (stamp_remote name token o loaded)
      ≡ (if name == j then stamped (some token) o else lookup j loaded)
unfolding stamp_remote stamped
lookup-stamp_remote j name token loaded none e = elim (Bool-cases (name == j)) [
  | inl b ↦ rw b (ap (λ q. lookup q loaded) (sym (==-eq name j b)) ∙ e)
  | inr b ↦ rw b
]
lookup-stamp_remote j name token loaded (some node) e =
    lookup-stamp_key j name token loaded node node.api_key e

-- Two names that are the same make the same lookups.
lookup-populate_token :
    (j name token : Text) (loaded : Nodes)
    → (j == codes "local") ≡ false
    → lookup j (populate_token name token loaded)
      ≡ (if name == j then stamped (some token) (lookup j loaded) else lookup j loaded)
unfolding populate_token
lookup-populate_token j name token loaded other = elim (Bool-cases (name == j)) [
  | inl b ↦
      let same = ==-eq name j b in
      let not_local : (name == codes "local") ≡ false = ap (λ q. q == codes "local") same ∙ other in
      rw (not_local, b)
        (lookup-stamp_remote j name token loaded (lookup name loaded) refl
          ∙ ap (λ x. if x then stamped (some token) (lookup name loaded) else lookup j loaded) b
          ∙ ap (λ q. stamped (some token) (lookup q loaded)) same)
  | inr b ↦ elim (Bool-cases (name == codes "local")) [
    | inl l ↦ rw (l, b)
    | inr l ↦
        rw (l, b)
          (lookup-stamp_remote j name token loaded (lookup name loaded) refl
            ∙ ap (λ x. if x then stamped (some token) (lookup name loaded) else lookup j loaded) b)
  ]
]

pub lookup-populate_tokens :
    (j : Text) (tokens : Dict Text Text) (loaded : Nodes)
    → Distinct tokens
    → (j == codes "local") ≡ false
    → lookup j (populate_tokens tokens loaded) ≡ stamped (lookup j tokens) (lookup j loaded)
unfolding populate_tokens lookup stamped
lookup-populate_tokens j [] loaded h other = refl
lookup-populate_tokens j ((name, token) ∷ tokens) loaded h other = elim (Bool-cases (name == j)) [
  | inl b ↦ rw b (
      lookup-populate_tokens j tokens (populate_token name token loaded) h.1 other
      ∙ ap (λ o. stamped o (lookup j (populate_token name token loaded)))
          (lookup-same name j tokens b h.0)
      ∙ lookup-populate_token j name token loaded other
      ∙ ap (λ x. if x then stamped (some token) (lookup j loaded) else lookup j loaded) b)
  | inr b ↦ rw b (
      lookup-populate_tokens j tokens (populate_token name token loaded) h.1 other
      ∙ ap (stamped (lookup j tokens)) (
          lookup-populate_token j name token loaded other
          ∙ ap (λ x. if x then stamped (some token) (lookup j loaded) else lookup j loaded) b))
]

lookup-unless_local :
    (j k : Text) (key : Option Text) (tokens : Dict Text Text)
    → (j == codes "local") ≡ false
    → lookup j (unless_local k key tokens)
      ≡ (if k == j then or_else (non_empty key) (lookup j tokens) else lookup j tokens)
unfolding unless_local lookup
lookup-unless_local j k none tokens other = elim (Bool-cases (k == j)) [
  | inl b ↦ rw b
  | inr b ↦ rw b
]
lookup-unless_local j k (some []) tokens other = elim (Bool-cases (k == j)) [
  | inl b ↦ rw b
  | inr b ↦ rw b
]
lookup-unless_local j k (some (c ∷ key)) tokens other = elim (Bool-cases (k == j)) [
  | inl b ↦
      let not_local : (k == codes "local") ≡ false =
        ap (λ q. q == codes "local") (==-eq k j b) ∙ other in
      rw (not_local, b)
  | inr b ↦ elim (Bool-cases (k == codes "local")) [ inl l ↦ rw (l, b) | inr l ↦ rw (l, b) ]
]

-- The key of a node, if it is not empty.
abbrev pub key_of : Option RemoteNode → Option Text
key_of none = none
key_of (some node) = non_empty node.api_key

or_else-none : (o : Option Text) → or_else o none ≡ o
or_else-none none = refl
or_else-none (some t) = refl

pub lookup-saved_tokens :
    (j : Text) (d : Nodes)
    → Distinct d
    → (j == codes "local") ≡ false
    → lookup j (saved_tokens d) ≡ key_of (lookup j d)
unfolding saved_tokens lookup
lookup-saved_tokens j [] h other = refl
lookup-saved_tokens j ((k, n) ∷ d) h other = elim (Bool-cases (k == j)) [
  | inl b ↦ rw b (
      lookup-unless_local j k n.api_key (saved_tokens d) other
      ∙ ap
          (λ x.
            if x
            then or_else (non_empty n.api_key) (lookup j (saved_tokens d))
            else lookup j (saved_tokens d))
          b
      ∙ ap (or_else (non_empty n.api_key))
          (lookup-saved_tokens j d h.1 other ∙ ap key_of (lookup-same k j d b h.0))
      ∙ or_else-none (non_empty n.api_key))
  | inr b ↦ rw b (
      lookup-unless_local j k n.api_key (saved_tokens d) other
      ∙ ap
          (λ x.
            if x
            then or_else (non_empty n.api_key) (lookup j (saved_tokens d))
            else lookup j (saved_tokens d))
          b
      ∙ lookup-saved_tokens j d h.1 other)
]

has_key-absent : {V : Type 0} (k : Text) (d : Dict Text V) → lookup k d ≡ none → has_key k d ≡ false
has_key-absent k d e = rw (has_key, e)

unless_local-Distinct :
    (k : Text) (key : Option Text) (d : Nodes)
    → Distinct d
    → has_key k d ≡ false
    → Distinct (saved_tokens d)
    → Distinct (unless_local k key (saved_tokens d))
unfolding unless_local
unless_local-Distinct k none d h absent rest = rest
unless_local-Distinct k (some []) d h absent rest = rest
unless_local-Distinct k (some (c ∷ key)) d h absent rest = elim (Bool-cases (k == codes "local")) [
  | inl l ↦ rw l rest
  | inr l ↦ rw l (
    has_key-absent k (saved_tokens d)
        (lookup-saved_tokens k d h l ∙ ap key_of (lookup-absent k d absent)),
    rest,
  )
]

pub saved_tokens-Distinct : (d : Nodes) → Distinct d → Distinct (saved_tokens d)
unfolding saved_tokens
saved_tokens-Distinct [] h = tt
saved_tokens-Distinct ((k, n) ∷ d) h =
    unless_local-Distinct k n.api_key d h.1 h.0 (saved_tokens-Distinct d h.1)

pub tokens_of-written_tokens :
    (tokens : Dict Text Text) (old : Option (Dict Text Text))
    → tokens_of (written_tokens tokens old) ≡ tokens
tokens_of-written_tokens [] none = refl
tokens_of-written_tokens [] (some old) = refl
tokens_of-written_tokens (t ∷ tokens) old = refl

not_local-flipped : (j : Text) → (j == codes "local") ≡ false → (codes "local" == j) ≡ false
not_local-flipped j h = elim (Bool-cases (codes "local" == j)) [
  | inl b ↦
      let e = ap (λ q. q == codes "local") (==-eq (codes "local") j b) in
      let s = ==-self (codes "local") in ground (arith, e, s, h)
  | inr b ↦ b
]

lookup-stamp_local :
    (j : Text) (token : Option Text) (o : Option RemoteNode) (loaded : Nodes)
    → (j == codes "local") ≡ false
    → lookup (codes "local") loaded ≡ o
    → lookup j (stamp_local token o loaded) ≡ lookup j loaded
unfolding stamp_local
lookup-stamp_local j token none loaded other e = refl
lookup-stamp_local j none (some node) loaded other e = refl
lookup-stamp_local j (some token) (some node) loaded other e =
    lookup-stamp_key j (codes "local") token loaded node node.api_key e
    ∙ ap (λ x. if x then some (stamped_key token node node.api_key) else lookup j loaded)
        (not_local-flipped j other)

pub lookup-populate_local_token :
    (j : Text) (token : Option Text) (loaded : Nodes)
    → (j == codes "local") ≡ false
    → lookup j (populate_local_token token loaded) ≡ lookup j loaded
unfolding populate_local_token
lookup-populate_local_token j token loaded other =
    lookup-stamp_local j token (lookup (codes "local") loaded) loaded other refl
