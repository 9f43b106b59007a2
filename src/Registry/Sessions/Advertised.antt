-- ===== src/Registry/Sessions/Advertised.antt =====
-- pkg/registry/registry.go: the method names that a node reports in its handshake's metadata
-- (SessionState.Methods, parseMeshMethods). A nil result and an empty one are one here.
use grpc_mesh_server.Prelude.{
  ◌≡◌, refl, ap, ◌∙◌, false, List, [], ◌∷◌, ◌++◌, Option, none, some, arith, if◌then◌else◌, Str,
  codes, is_empty, str_eq_instance, map, All, any, leb,
}
use grpc_mesh_server.Map.{lookup, insert, lookup-insert_self}
use grpc_mesh_server.Strings.{split, split_from, trim_space, drop_space}
use grpc_mesh_server.Strings.Search.{occurs, occurs-append}
use grpc_mesh_server.Strings.Spaces.{IsBlank, IsWord, trim_space-word, split-append, split-free}
use grpc_mesh_server.Control.Messages.{Handshake}
use grpc_mesh_server.Registry.Sessions.{SessionState}

abbrev pub mesh_methods_key : Str
mesh_methods_key = codes "mesh.methods"

-- The loop: the parts without the space around them, except the empty ones.
unfoldable pub trimmed_parts : List Str → List Str
trimmed_parts [] = []
trimmed_parts (part ∷ parts) =
    let rest = trimmed_parts parts in
    let trimmed = trim_space part in if is_empty trimmed then rest else trimmed ∷ rest

unfoldable pub parse_mesh_methods : Option Handshake → List Str
unfolding trimmed_parts
parse_mesh_methods none = []
parse_mesh_methods (some h) =
    let raw : Str = elim (lookup mesh_methods_key h.metadata) [ none ↦ [] | some r ↦ r ] in
    if is_empty raw then [] else trimmed_parts (split 44 raw)

unfoldable pub methods : SessionState → List Str
methods s = parse_mesh_methods s.handshake

-- A name with what stands around it.
pub record Entry : Type 0 where
  pub before : Str
  pub name : Str
  pub behind : Str

unfoldable pub text : Entry → Str
text e = e.before ++ (e.name ++ e.behind)

-- The entries, with a comma between any two.
unfoldable pub listing : List Entry → Str
unfolding text
listing [] = []
listing (e ∷ []) = text e
listing (e ∷ f ∷ es) = text e ++ 44 ∷ listing (f ∷ es)

-- The name is a word of ASCII bytes without a comma, and only ASCII blanks stand around it.
unfoldable pub IsEntry : Entry → Type 0
IsEntry e =
    IsBlank e.before
    × IsWord e.name
    × IsBlank e.behind
    × (occurs 44 e.name ≡ false)
    × (any (leb 128) e.name ≡ false)

IsBlank-occurs : (s : Str) → IsBlank s → occurs 44 s ≡ false
unfolding IsBlank
IsBlank-occurs [] h = refl
IsBlank-occurs (b ∷ s) h = ground (arith, IsBlank-occurs s h.1, h.0)

text-occurs : (e : Entry) → IsEntry e → occurs 44 (text e) ≡ false
unfolding IsEntry text
text-occurs e h = ground (
  arith,
  occurs-append 44 e.before (e.name ++ e.behind),
  occurs-append 44 e.name e.behind,
  IsBlank-occurs e.before h.0,
  IsBlank-occurs e.behind h.2,
  h.3,
)

text-trim : (e : Entry) → IsEntry e → trim_space (text e) ≡ e.name
unfolding IsEntry text
text-trim e h = trim_space-word e.before e.name e.behind h.0 h.1 h.2

word-is_empty : (s : Str) → IsWord s → is_empty s ≡ false
unfolding IsWord
word-is_empty [] h = absurd (ground arith)
word-is_empty (b ∷ s) h = refl

trimmed_parts-entry :
    (e : Entry) (parts : List Str)
    → IsEntry e
    → trimmed_parts (text e ∷ parts) ≡ e.name ∷ trimmed_parts parts
unfolding trimmed_parts IsEntry
trimmed_parts-entry e parts h = rw (text-trim e h) (ground (arith, word-is_empty e.name h.1))

trimmed_listing :
    (e : Entry) (es : List Entry)
    → All IsEntry (e ∷ es)
    → trimmed_parts (split_from 44 [] (listing (e ∷ es))) ≡ map (λ f. f.name) (e ∷ es)
unfolding listing trimmed_parts
trimmed_listing e [] h =
    rw (split-free 44 [] (text e) (text-occurs e h.0)) (trimmed_parts-entry e [] h.0)
trimmed_listing e (f ∷ es) h =
    rw (split-append 44 [] (text e) (listing (f ∷ es)) (text-occurs e h.0)) (
      trimmed_parts-entry e (split_from 44 [] (listing (f ∷ es))) h.0
      ∙ ap (λ ns. e.name ∷ ns) (trimmed_listing f es h.1))

-- The test for an empty text saves work only.
raw_empty :
    (raw : Str)
    → (if is_empty raw then [] else trimmed_parts (split 44 raw)) ≡ trimmed_parts (split 44 raw)
unfolding trimmed_parts split split_from trim_space drop_space
raw_empty [] = refl
raw_empty (b ∷ s) = refl

listing-parts :
    (es : List Entry)
    → All IsEntry es
    → trimmed_parts (split 44 (listing es)) ≡ map (λ f. f.name) es
unfolding split
listing-parts [] a = unfold listing trimmed_parts split_from trim_space drop_space in refl
listing-parts (e ∷ es) a = trimmed_listing e es a

raw_of : Option Str → Str
raw_of o = elim o [ none ↦ [] | some r ↦ r ]

parse-listing :
    (h : Handshake) (raw : Str)
    → parse_mesh_methods (some (record h { metadata = insert mesh_methods_key raw h.metadata }))
      ≡ trimmed_parts (split 44 raw)
unfolding parse_mesh_methods lookup raw_of
parse-listing h raw =
    ap (λ o. let r = raw_of o in if is_empty r then [] else trimmed_parts (split 44 r))
      (lookup-insert_self mesh_methods_key raw h.metadata)
    ∙ raw_empty raw

-- If the metadata hold, under the key `mesh.methods`, ASCII names without commas that are separated by
-- commas, with white space before and behind them, then the session's methods are these names in
-- their order.
pub advertised_methods :
    (s : SessionState) (h : Handshake) (es : List Entry)
    → s.handshake ≡ some (record h { metadata = insert mesh_methods_key (listing es) h.metadata })
    → All IsEntry es
    → methods s ≡ map (λ e. e.name) es
unfolding methods
advertised_methods s h es k a =
    ap parse_mesh_methods k ∙ parse-listing h (listing es) ∙ listing-parts es a
