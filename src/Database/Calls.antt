-- ===== src/Database/Calls.antt =====
-- Any sequence of calls on a database, against a map.
use my_codebase.Base.{
  ℕ, ◌≡◌, refl, sym, ap, ◌∙◌, List, [], ◌∷◌, ◌++◌, Option, none, some, Bool, true, false, ◌>>=◌,
  if◌then◌else◌, Option-cases, inl, inr,
}
use my_codebase.Process.{call-cases}
use my_codebase.InMemDb.{Bytes, bytes_eq, string_of}
use my_codebase.Database.{AbsDatabase, IsDatabase}

pub data DbOp : Type 0 where
  insert_pair : Bytes → Bytes → DbOp
  insert_from_buffer : Bytes → Bytes → ℕ → DbOp
  insert_from_buffers : Bytes → ℕ → Bytes → ℕ → DbOp
  query_key : Bytes → DbOp
  query_from_buffer : Bytes → ℕ → DbOp

-- The abstract database: a partial function on strings.
abbrev pub KeyMap : Type 0
KeyMap = Bytes → Option Bytes

abbrev pub update : KeyMap → Bytes → Bytes → KeyMap
update m key value q = if bytes_eq q key then some value else m q

abbrev pub Answers : Type 0
Answers = List (Option Bytes)

abbrev add_answer : {A : Type 0} → Option Bytes → Answers × A → Answers × A
add_answer a (answers, x) = (a ∷ answers, x)

-- The answers to the queries and the map in the end; `none` is a read outside a buffer.
unfoldable pub replay_calls : List DbOp → KeyMap → Option (Answers × KeyMap)
replay_calls [] m = some ([], m)
replay_calls (insert_pair key value ∷ ops) m = replay_calls ops (update m key value)
replay_calls (insert_from_buffer key buf n ∷ ops) m =
    string_of buf n >>= λ value. replay_calls ops (update m key value)
replay_calls (insert_from_buffers key key_size buf n ∷ ops) m = string_of key key_size >>= λ key'.
    string_of buf n >>= λ value. replay_calls ops (update m key' value)
replay_calls (query_key key ∷ ops) m = replay_calls ops m >>= λ r. some (add_answer (m key) r)
replay_calls (query_from_buffer key key_size ∷ ops) m =
    string_of key key_size >>= λ key'. replay_calls ops m >>= λ r. some (add_answer (m key') r)

abbrev Run : Type 0 → Type 0
Run W = Option (Bool × Answers × W)

abbrev after_insert : {W : Type 0} → (W → Run W) → Bool × W → Run W
after_insert next (false, w) = some (false, [], w)
after_insert next (true, w) = next w

abbrev after_query : {W : Type 0} → Option Bytes → Run W → Run W
after_query a r = r >>= λ t. some (t.0, a ∷ t.1, t.2)

-- The calls one after the other, up to an insertion that returns false.
unfoldable pub make_calls : (db : AbsDatabase) → List DbOp → db.World → Run db.World
make_calls db [] w = some (true, [], w)
make_calls db (insert_pair key value ∷ ops) w =
    after_insert (λ w'. make_calls db ops w') (db.do_insert key value w)
make_calls db (insert_from_buffer key buf n ∷ ops) w =
    db.do_insert_buffer key buf n w >>= after_insert (λ w'. make_calls db ops w')
make_calls db (insert_from_buffers key key_size buf n ∷ ops) w =
    db.do_insert_both_buffer key key_size buf n w >>= after_insert (λ w'. make_calls db ops w')
make_calls db (query_key key ∷ ops) w = after_query (db.do_query key w) (make_calls db ops w)
make_calls db (query_from_buffer key key_size ∷ ops) w =
    db.do_query_buffer key key_size w >>= λ a. after_query a (make_calls db ops w)

-- How the calls compare with the map.
pub data Follows (db : AbsDatabase) (m : KeyMap) (ops : List DbOp) : Run db.World → Type 0 where
  follows :
      (answers : Answers) (m' : KeyMap) (w' : db.World)
      → replay_calls ops m ≡ some (answers, m')
      → ((q : Bytes) → db.do_query q w' ≡ m' q)
      → Follows db m ops (some (true, answers, w'))
  refused :
      (past left : List DbOp) (answers : Answers) (m' : KeyMap) (key value : Bytes)
      (w w' : db.World)
      → ops ≡ past ++ left
      → replay_calls past m ≡ some (answers, m')
      → db.do_insert key value w ≡ (false, w')
      → Follows db m ops (some (false, answers, w'))
  outside : replay_calls ops m ≡ none → Follows db m ops none

module _ (db : AbsDatabase) (law : IsDatabase db) where
  abbrev Relates : db.World → KeyMap → Type 0
  Relates w m = (q : Bytes) → db.do_query q w ≡ m q

  -- `op` is an insertion of these strings.
  module _ (op : DbOp) (m : KeyMap) (key value : Bytes)
      (unrolls : (past : List DbOp)
        → replay_calls (op ∷ past) m ≡ replay_calls past (update m key value)) where
    put-Follows :
        (ops : List DbOp) (r : Run db.World)
        → Follows db (update m key value) ops r
        → Follows db m (op ∷ ops) r
    put-Follows ops r (follows answers m' w' e same) = follows answers m' w' (unrolls ops ∙ e) same
    put-Follows ops r (refused past left answers m' k v w w' e e' fails) =
        refused (op ∷ past) left answers m' k v w w' (ap (λ t. op ∷ t) e) (unrolls past ∙ e') fails
    put-Follows ops r (outside e) = outside (unrolls ops ∙ e)

    insert-Follows :
        (ops : List DbOp) (w : db.World)
        → Relates w m
        → ((w' : db.World)
            → Relates w' (update m key value)
            → Follows db (update m key value) ops (make_calls db ops w'))
        → Follows db m
            (op ∷ ops)
            (after_insert (λ w'. make_calls db ops w') (db.do_insert key value w))
    unfolding replay_calls
    insert-Follows ops w same go = elim (call-cases (db.do_insert key value w)) [
      | inl (w', e) ↦
          let ok : (db.do_insert key value w).0 ≡ true = ap (λ t. t.0) e in
          let after : Relates w' (update m key value) = λ q.
            ap (λ t. db.do_query q t.1) (sym e)
            ∙ law.query_insert key value q w ok
            ∙ ap (λ t. if bytes_eq q key then some value else t) (same q) in
          rw e (put-Follows ops _ (go w' after))
      | inr (w', e) ↦ rw e (refused [] (op ∷ ops) [] m key value w w' refl refl e)
    ]

  -- `op` is a query for this string.
  query-Follows :
      (op : DbOp) (m : KeyMap) (key : Bytes) (ops : List DbOp) (r : Run db.World)
      → ((past : List DbOp)
          → replay_calls (op ∷ past) m ≡ (replay_calls past m >>= λ t. some (add_answer (m key) t)))
      → Follows db m ops r
      → Follows db m (op ∷ ops) (after_query (m key) r)
  query-Follows op m key ops r unrolls (follows answers m' w' e same) =
      follows (m key ∷ answers) m' w' (unrolls ops ∙ rw e) same
  query-Follows op m key ops r unrolls (refused past left answers m' k v w w' e e' fails) =
      refused (op ∷ past) left (m key ∷ answers) m' k v w w' (ap (λ t. op ∷ t) e)
        (unrolls past ∙ rw e') fails
  query-Follows op m key ops r unrolls (outside e) = outside (unrolls ops ∙ rw e)

  pub make_calls-Follows :
      (ops : List DbOp) (m : KeyMap) (w : db.World)
      → Relates w m
      → Follows db m ops (make_calls db ops w)
  unfolding make_calls replay_calls
  make_calls-Follows [] m w same = follows [] m w refl same
  make_calls-Follows (insert_pair key value ∷ ops) m w same =
      insert-Follows (insert_pair key value) m key value (λ past. refl) ops w same
        (λ w' after. make_calls-Follows ops (update m key value) w' after)
  make_calls-Follows (insert_from_buffer key buf n ∷ ops) m w same =
      rw (law.buffer_insert key buf n w) (elim (Option-cases (string_of buf n)) [
        | inl e ↦ rw e (outside (rw e))
        | inr (value, e) ↦ rw e (
            insert-Follows (insert_from_buffer key buf n) m key value (λ past. rw e) ops w same
              (λ w' after. make_calls-Follows ops (update m key value) w' after))
      ])
  make_calls-Follows (insert_from_buffers key key_size buf n ∷ ops) m w same =
      rw (law.both_buffer_insert key key_size buf n w)
        (elim (Option-cases (string_of key key_size)) [
          | inl e ↦ rw e (outside (rw e))
          | inr (key', e) ↦ elim (Option-cases (string_of buf n)) [
            | inl e' ↦ rw (e, e') (outside (rw (e, e')))
            | inr (value, e') ↦
                rw (e, e')
                  (insert-Follows (insert_from_buffers key key_size buf n) m key' value
                    (λ past. rw (e, e')) ops w same
                    (λ w' after. make_calls-Follows ops (update m key' value) w' after))
          ]
        ])
  make_calls-Follows (query_key key ∷ ops) m w same =
      rw (same key)
        (query-Follows (query_key key) m key ops _ (λ past. refl) (make_calls-Follows ops m w same))
  make_calls-Follows (query_from_buffer key key_size ∷ ops) m w same =
      rw (law.buffer_query key key_size w) (elim (Option-cases (string_of key key_size)) [
        | inl e ↦ rw e (outside (rw e))
        | inr (key', e) ↦
            rw (e, same key')
              (query-Follows (query_from_buffer key key_size) m key' ops _ (λ past. rw e)
                (make_calls-Follows ops m w same))
      ])
