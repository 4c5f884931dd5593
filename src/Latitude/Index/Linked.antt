-- ===== src/Latitude/Index/Linked.antt =====
-- Every entry of `byServer` leads to a machine whose state names that server.
use bigfleet_providers.Prelude.{
  String, String-discrete, List, Option, none, some, get, insert, remove, get-insert, get-insert_eq,
  get-insert_ne, get-remove, ◌≡◌, ◌≢◌, sym, ◌∙◌, arith, ◌⊎◌, inl, inr, ite, if_pos, if_neg,
}
use bigfleet_providers.Kit.Server.{string_key}
use bigfleet_providers.Latitude.Index.{MachineState, Index, link, unlink, put}

-- The machine that an entry names has a state with that server.
abbrev pub Names : List (String × MachineState) → String → String → Type 0
Names states server id = (st : MachineState) × (get id states ≡ some st) × (st.server_id ≡ server)

pub record Linked (ix : Index) : Type 0 where
  pub linked :
      (server id : String) → get server ix.by_server ≡ some id → Names ix.by_machine server id
  pub named : get "" ix.by_server ≡ none

get-link :
    (server machine s id : String) (m : List (String × String))
    → get s (link server machine m) ≡ some id
    → ((server ≡ s) × (id ≡ machine)) ⊎ ((get s m ≡ some id) × (server ≡ s → s ≡ ""))
unfolding link
get-link server machine s id m h = ground (arith, get-insert s server machine m)

get-unlink :
    (prev : MachineState) (server s id : String) (m : List (String × String))
    → get s (unlink (some prev) server m) ≡ some id
    → (get s m ≡ some id) × (prev.server_id ≡ s → (s ≡ "") ⊎ (s ≡ server))
unfolding unlink
get-unlink prev server s id m h = ground (arith, get-remove s prev.server_id m)

-- What an entry is after the machine has moved.
put_entry :
    (o : Option MachineState) (st : MachineState) (s id : String) (m : List (String × String))
    → get s (link st.server_id st.machine_id (unlink o st.server_id m)) ≡ some id
    → ((st.server_id ≡ s) × (id ≡ st.machine_id))
      ⊎ ((get s m ≡ some id)
          × ((prev : MachineState) → o ≡ some prev → prev.server_id ≡ s → (s ≡ "")))
unfolding unlink
put_entry none st s id m h = elim (get-link st.server_id st.machine_id s id m h) [
  | inl q ↦ inl q
  | inr q ↦ inr (q.0, λ p e. cc)
]
put_entry (some prev) st s id m h = elim (get-link st.server_id st.machine_id s id _ h) [
  | inl q ↦ inl q
  | inr q ↦
      let u = get-unlink prev st.server_id s id m q.0 in
      inr (u.0, λ p e. moved p (λ r. q.1 (sym r)) u.1 e)
]
  where
    moved :
        (p : MachineState)
        → (s ≡ st.server_id → s ≡ "")
        → (prev.server_id ≡ s → (s ≡ "") ⊎ (s ≡ st.server_id))
        → some prev ≡ some p
        → p.server_id ≡ s
        → s ≡ ""
    moved p a b e r = elim (b (cc (e, r))) [ inl x ↦ x | inr x ↦ a x ]

link-named :
    (server machine : String) (m : List (String × String))
    → get "" m ≡ none
    → get "" (link server machine m) ≡ none
unfolding link
link-named server machine m h = ground (arith, get-insert "" server machine m, h)

unlink-named :
    (o : Option MachineState) (server : String) (m : List (String × String))
    → get "" m ≡ none
    → get "" (unlink o server m) ≡ none
unfolding unlink
unlink-named none server m h = h
unlink-named (some prev) server m h = ground (arith, get-remove "" prev.server_id m, h)

module _ (ix : Index) (l : Linked ix) where
  put-linked :
      (st : MachineState) (s id : String)
      → get s (put st ix).by_server ≡ some id
      → Names (put st ix).by_machine s id
  unfolding put
  put-linked st s id h = elim (put_entry (get st.machine_id ix.by_machine) st s id ix.by_server h) [
    | inl (e, q) ↦ (st, get-insert_eq id st.machine_id st ix.by_machine (sym q), e)
    | inr (g, f) ↦ older g f
  ]
    where
      older :
          (g : get s ix.by_server ≡ some id)
          → ((p : MachineState)
              → get st.machine_id ix.by_machine ≡ some p
              → p.server_id ≡ s
              → (s ≡ ""))
          → Names (insert st.machine_id st ix.by_machine) s id
      older g f = elim (String-discrete st.machine_id id) [
        | yes e ↦ let (prev, q, r) = l.linked s id g in cc (f prev (rw e q) r, l.named, g)
        | no n ↦
            let (prev, q, r) = l.linked s id g in
            (prev, get-insert_ne id st.machine_id st ix.by_machine n ∙ q, r)
      ]

  -- `upsert` keeps the index linked.
  pub put-Linked : (st : MachineState) → Linked (put st ix)
  unfolding put
  put-Linked st = record {
    linked = put-linked st;
    named =
        link-named st.server_id st.machine_id _
          (unlink-named (get st.machine_id ix.by_machine) st.server_id ix.by_server l.named);
  }

  -- So does the change of a binding.
  pub bind-Linked :
      (id cluster : String) (st : MachineState)
      → get id ix.by_machine ≡ some st
      → Linked
          (record ix { by_machine = insert id (record st { cluster_id = cluster }) ix.by_machine })
  bind-Linked id cluster st q = record {
    linked = λ s j g. moved s j (l.linked s j g);
    named = l.named;
  }
    where
      moved :
          (s j : String)
          → Names ix.by_machine s j
          → Names (insert id (record st { cluster_id = cluster }) ix.by_machine) s j
      moved s j (old, e, r) = elim (String-discrete id j) [
        | yes x ↦ (record st { cluster_id = cluster }, get-insert_eq j id _ ix.by_machine x, cc)
        | no x ↦ (old, get-insert_ne j id _ ix.by_machine x ∙ e, r)
      ]

  -- So does the removal of a server with its machine.
  pub drop-Linked :
      (server id : String)
      → get server ix.by_server ≡ some id
      → Linked (record ix {
        by_machine = remove id ix.by_machine;
        by_server = remove server ix.by_server;
      })
  drop-Linked server id q = record {
    linked = λ s j g. other s j (get-remove s server ix.by_server) g;
    named = ground (arith, get-remove "" server ix.by_server, l.named);
  }
    where
      here : Names ix.by_machine server id
      here = l.linked server id q

      same :
          {s j : String}
          → Names ix.by_machine server id
          → (st : MachineState) → get j ix.by_machine ≡ some st
          → st.server_id ≡ s
          → id ≡ j
          → server ≡ s
      same (own, a, b) st e r x = cc

      kept :
          (s j : String)
          → server ≢ s
          → Names ix.by_machine s j
          → Names (remove id ix.by_machine) s j
      kept s j n (st, e, r) = elim (String-discrete id j) [
        | yes x ↦ absurd (n (same here st e r x))
        | no x ↦ (st, get-remove j id ix.by_machine ∙ if_neg (String-discrete id j) x _ _ ∙ e, r)
      ]

      other :
          (s j : String)
          → get s (remove server ix.by_server)
            ≡ ite (String-discrete server s) none (get s ix.by_server)
          → get s (remove server ix.by_server) ≡ some j
          → Names (remove id ix.by_machine) s j
      other s j u g = elim (String-discrete server s) [
        | yes x ↦ cc (u, if_pos (String-discrete server s) x none (get s ix.by_server), g)
        | no x ↦ kept s j x (
            l.linked s j (cc (u, if_neg (String-discrete server s) x none (get s ix.by_server), g)))
      ]
