-- ===== src/Posture/Reapproval.antt =====
-- Which tools `audit_tools` reports.
use aisecure.Prelude.{
  ◌≡◌, ◌≢◌, ◌↔◌, refl, sym, ap, ◌∙◌, String, List, [], ◌∷◌, Option, none, some, Bool, true, false,
  ◌==◌, mem, lookup, text_eq, arith, eq_iff, both_true, Distinct, map, inl, inr, Bool-cases,
  if◌then◌else◌,
}
use mathlib.Core.Path.{subst}
use aisecure.Schema.Fits.{unseen}
use aisecure.Posture.{opaque_text, dict_of, list_of}
use aisecure.Result.{refuse, refuse_ok, gateway, ok, ok_value, >>=-ok}
use aisecure.Json.{Value, at_key}
use aisecure.Posture.Tools.{
  Tool, tools_of, tool_of, hash_of, permissions_of, validate, same_texts, same_tool, changed,
  changed_names, audit_tools,
}

same_texts_iff : (xs ys : List String) → (same_texts xs ys ≡ true) ↔ (xs ≡ ys)
same_texts_iff [] [] = (λ h. refl, λ h. refl)
same_texts_iff [] (y ∷ ys) = (λ h. cc, λ h. cc)
same_texts_iff (x ∷ xs) [] = (λ h. cc, λ h. cc)
same_texts_iff (x ∷ xs) (y ∷ ys) = ground (arith, eq_iff x y, same_texts_iff xs ys)

tool : (a b : String) (p : List String) (c : String) → Tool
tool a b p c = record { id = a; sha256 = b; permissions = p; publisher = c }

same_tool-eq : (t u : Tool) → same_tool t u ≡ true → t ≡ u
unfolding tool
same_tool-eq t u h =
    let (rest, publisher) = both_true h in
    let (rest1, permissions) = both_true rest in
    let (id, sha256) = both_true rest1 in
    let e1 = (eq_iff t.id u.id).0 id in
    let e2 = (eq_iff t.sha256 u.sha256).0 sha256 in
    let e3 = (same_texts_iff t.permissions u.permissions).0 permissions in
    let e4 = (eq_iff t.publisher u.publisher).0 publisher in
    λ i. record { id = e1 i; sha256 = e2 i; permissions = e3 i; publisher = e4 i }

same_tool_refl : (t : Tool) → same_tool t t ≡ true
same_tool_refl t =
    rw
      (
        (eq_iff t.id t.id).1 refl,
        (eq_iff t.sha256 t.sha256).1 refl,
        (same_texts_iff t.permissions t.permissions).1 refl,
        (eq_iff t.publisher t.publisher).1 refl,
      )
      refl

the_same : {A : Type 0} (a b : A) → some a ≡ some b → a ≡ b
the_same a b h = cc

changed_iff : (o : Option Tool) (t : Tool) → (changed o t ≡ true) ↔ (o ≢ some t)
changed_iff none t = (λ h e. cc, λ h. refl)
changed_iff (some u) t = (
  λ h e.
      let same : same_tool u t ≡ true =
        subst (λ (x : Tool). same_tool u x ≡ true) {x = u} (the_same u t e) (same_tool_refl u) in
      cc (h, same),
  λ h. elim (Bool-cases (same_tool u t)) [
    | inl same ↦ absurd (h (ap (λ (x : Tool). some x) (same_tool-eq u t same)))
    | inr differs ↦ rw differs refl
  ],
)

abbrev names_of : List (String × Tool) → List String
names_of = map (λ p. p.0)

-- a name that is reported is in the ledger
changed_names-mem :
    (base : List (String × Tool)) (k : String) (tools : List (String × Tool))
    → mem k (names_of tools) ≡ false
    → mem k (changed_names base tools) ≡ false
unfolding changed_names
changed_names-mem base k [] h = refl
changed_names-mem base k ((name, t) ∷ rest) h = ground (arith, changed_names-mem base k rest)

at_head :
    (k name : String) (c : Bool) (more : List String)
    → k == name ≡ true
    → mem name more ≡ false
    → mem name (if c then k ∷ more else more) ≡ c
at_head k name c more h new = ground arith

past_head :
    (k name : String) (c : Bool) (more : List String)
    → k == name ≡ false
    → mem name (if c then k ∷ more else more) ≡ mem name more
past_head k name c more h = ground arith

reported :
    (base : List (String × Tool)) (tools : List (String × Tool)) (name : String) (t : Tool)
    → Distinct (names_of tools)
    → lookup name tools ≡ some t
    → mem name (changed_names base tools) ≡ changed (lookup name base) t
unfolding changed_names
reported base [] name t d h = cc
reported base ((k, u) ∷ rest) name t (new, d) h = elim (Bool-cases (k == name)) [
  | inl same ↦
      let k_name : k ≡ name = (eq_iff k name).0 same in
      let u_t : u ≡ t = the_same u t (rw same at h) in
      let absent : mem name (changed_names base rest) ≡ false =
        changed_names-mem base name rest
          (subst (λ z. mem z (names_of rest) ≡ false) {x = k} k_name new) in
      at_head k name _ _ same absent
      ∙ ap (λ z. changed (lookup z base) u) k_name
      ∙ ap (λ (z : Tool). changed (lookup name base) z) u_t
  | inr differs ↦
      past_head k name _ (changed_names base rest) differs
      ∙ reported base rest name t d (rw differs at h)
]

-- what the loop of `validate` returns, when it has seen some names
record Apart (seen : List String) (tools : List (String × Tool)) : Type 0 where
  pub distinct : Distinct (names_of tools)
  pub new : (k : String) → mem k seen ≡ true → mem k (names_of tools) ≡ false

tool_of-new :
    (seen : List String) (v : Value) (t : Tool) → tool_of seen v ≡ ok t → mem t.id seen ≡ false
unfolding tool_of
tool_of-new seen v t e =
    let (fs, _, e1) =
      >>=-ok (dict_of ("id" ∷ "sha256" ∷ "permissions" ∷ "publisher" ∷ []) v) _ t e in
    let (id, _, e2) = >>=-ok (opaque_text (at_key "id" fs)) _ t e1 in
    let (u, new, e3) = >>=-ok (refuse (mem id seen) gateway) _ t e2 in
    let (sha256, _, e4) = >>=-ok (hash_of (at_key "sha256" fs)) _ t e3 in
    let (publisher, _, e5) = >>=-ok (opaque_text (at_key "publisher" fs)) _ t e4 in
    let (listed, _, e6) = >>=-ok (list_of 20 (at_key "permissions" fs)) _ t e5 in
    let (permissions, _, e7) = >>=-ok (permissions_of listed) _ t e6 in
    subst (λ (x : Tool). mem x.id seen ≡ false) (ok_value _ t e7) (refuse_ok _ _ u new)

tools_of-Apart :
    (seen : List String) (vs : List Value) (out : List (String × Tool))
    → tools_of seen vs ≡ ok out
    → Apart seen out
unfolding tools_of
tools_of-Apart seen [] out e =
    subst (Apart seen) (ok_value [] out e) (record { distinct = tt; new = λ k h. refl })
tools_of-Apart seen (v ∷ vs) out e =
    let (t, one, e1) = >>=-ok (tool_of seen v) _ out e in
    let (rest, more, e2) = >>=-ok (tools_of (t.id ∷ seen) vs) _ out e1 in
    let later = tools_of-Apart (t.id ∷ seen) vs rest more in
    subst (Apart seen) (ok_value ((t.id, t) ∷ rest) out e2) (record {
      distinct = (later.new t.id (rw ((eq_iff t.id t.id).1 refl) refl), later.distinct);
      new = λ k. unseen t.id k seen (names_of rest) (tool_of-new seen v t one) (later.new k);
    })

validate-Distinct :
    (doc : Value) (out : List (String × Tool)) → validate doc ≡ ok out → Distinct (names_of out)
unfolding validate
validate-Distinct doc out e =
    let (fs, _, e1) = >>=-ok (dict_of ("tools" ∷ []) doc) _ out e in
    let (vs, _, e2) = >>=-ok (list_of 1000 (at_key "tools" fs)) _ out e1 in
    (tools_of-Apart [] vs out e2).distinct

both_ways : {a : Bool} {P : Type 0} (b : Bool) → a ≡ b → (b ≡ true) ↔ P → (a ≡ true) ↔ P
both_ways b e (there, back) = (λ h. there (sym e ∙ h), λ p. e ∙ back p)

-- When `audit_tools` returns names, both ledgers were accepted, and a tool of the manifest is named
-- exactly when the approved ledger does not hold the very same tool under its name.
pub audit_tools-changed :
    (manifest approved : Value) (names : List String)
    → audit_tools manifest approved ≡ ok names
    → (current base : List (String × Tool)) × (validate manifest ≡ ok current)
      × (validate approved ≡ ok base)
      × ((name : String) (t : Tool)
          → lookup name current ≡ some t
          → (mem name names ≡ true) ↔ (lookup name base ≢ some t))
unfolding audit_tools
audit_tools-changed manifest approved names e =
    let (current, now, e1) = >>=-ok (validate manifest) _ names e in
    let (base, before, e2) = >>=-ok (validate approved) _ names e1 in
    (
      current,
      base,
      now,
      before,
      λ name t found.
          both_ways (changed (lookup name base) t)
            (sym (ap (mem name) (ok_value _ names e2))
              ∙ reported base current name t (validate-Distinct manifest current now) found)
            (changed_iff (lookup name base) t),
    )
