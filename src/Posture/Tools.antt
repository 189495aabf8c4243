-- ===== src/Posture/Tools.antt =====
-- `audit_tools` of aisecure/posture.py: the tools of a manifest that are not exactly the approved
-- ones.
use aisecure.Prelude.{
  String, List, [], ◌∷◌, Option, none, some, Bool, true, false, ◌&&◌, ◌==◌, not, mem, lookup,
  text_eq, if◌then◌else◌,
}
use aisecure.Result.{Result, ok, err, gateway, refuse, ◌>>=◌, ◌>>◌}
use aisecure.Json.{Value, str, at_key}
use aisecure.Schema.{is_sha256}
use aisecure.Posture.{opaque_text, dict_of, list_of}

pub record Tool : Type 0 where
  pub id : String
  pub sha256 : String
  pub permissions : List String
  pub publisher : String

abbrev permission_names : List String
permission_names = "read" ∷ "write" ∷ "network" ∷ "execute" ∷ "delete" ∷ "share" ∷ []

unfoldable pub hash_of : Value → Result String
hash_of (str s) = if is_sha256 s then ok s else err gateway
hash_of _ = err gateway

unfoldable pub permission_of : Value → Result String
permission_of (str s) = if mem s permission_names then ok s else err gateway
permission_of _ = err gateway

unfoldable pub permissions_of : List Value → Result (List String)
permissions_of [] = ok []
permissions_of (v ∷ vs) = do p ← permission_of v; rest ← permissions_of vs; ok (p ∷ rest)

-- one tool of a ledger, apart from those before it
unfoldable pub tool_of : List String → Value → Result Tool
tool_of seen v = do
  fs ← dict_of ("id" ∷ "sha256" ∷ "permissions" ∷ "publisher" ∷ []) v
  id ← opaque_text (at_key "id" fs)
  refuse (mem id seen) gateway
  sha256 ← hash_of (at_key "sha256" fs)
  publisher ← opaque_text (at_key "publisher" fs)
  listed ← list_of 20 (at_key "permissions" fs)
  permissions ← permissions_of listed
  ok (record { id = id; sha256 = sha256; permissions = permissions; publisher = publisher })

-- the dictionary `tools`, in the order of the ledger
unfoldable pub tools_of : List String → List Value → Result (List (String × Tool))
tools_of seen [] = ok []
tools_of seen (v ∷ vs) = do
  t ← tool_of seen v
  rest ← tools_of (t.id ∷ seen) vs
  ok ((t.id, t) ∷ rest)

-- `validate`
unfoldable pub validate : Value → Result (List (String × Tool))
validate doc = do
  fs ← dict_of ("tools" ∷ []) doc
  vs ← list_of 1000 (at_key "tools" fs)
  tools_of [] vs

abbrev pub same_texts : List String → List String → Bool
same_texts [] [] = true
same_texts (x ∷ xs) (y ∷ ys) = x == y && same_texts xs ys
same_texts _ _ = false

-- `==` of two tools
abbrev pub same_tool : Tool → Tool → Bool
same_tool t u =
    t.id == u.id
    && t.sha256 == u.sha256
    && same_texts t.permissions u.permissions
    && t.publisher == u.publisher

-- `base.get(name) != t`
abbrev pub changed : Option Tool → Tool → Bool
changed none t = true
changed (some u) t = not (same_tool u t)

unfoldable pub changed_names : List (String × Tool) → List (String × Tool) → List String
changed_names base [] = []
changed_names base ((name, t) ∷ rest) =
    let more = changed_names base rest in if changed (lookup name base) t then name ∷ more else more

-- `audit_tools`: the names that need a new approval
unfoldable pub audit_tools : Value → Value → Result (List String)
audit_tools manifest approved = do
  current ← validate manifest
  base ← validate approved
  ok (changed_names base current)
