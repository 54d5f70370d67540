-- ===== src/ConnManager/Counting.antt =====
-- The counter of a manager is the number of its connections, and each key stands once.
use mathlib.Core.Path.{subst}
use gain.Base.{
  ◌⊎◌, ℕ, ◌+◌, ◌-◌, ◌≡◌, ◌≤◌, refl, sym, ap, ◌∙◌, arith, List, [], ◌∷◌, suc, Option, none, some,
}
use gain.Base.{length, if◌then◌else◌, ◌==◌, inl, inr, Bool-cases, Bool}
use gain.Base.Maps
use gain.Base.Maps.{
  lookup, update, insert, delete, keys, occurrences, lookup-none, lookup-some, keys-update,
  insert_new, lookup-absent, occurrences-delete, lookup-delete, length-delete, length-update,
}
use gain.KeyPool
use gain.KeyPool.{KeyPool}
use gain.KeyPool.Fresh.{IsDistinct, Fresh, get-IsDistinct, get-zero}
use gain.Buffer.{Buffer}
use gain.Conn
use gain.Conn.Forking.{fork-key}
use gain.Conn.{Connection}
use gain.ConnPool
use gain.ConnManager.{ConnManager, get, fork, release, store, active_connections, close, close_each}

module _ {B Addr : Type 0} where
  pub record IsCounted (m : ConnManager B Addr) : Type 0 where
    pub counted : active_connections m ≡ length m.connections
    pub once : (k : ℕ) → occurrences k (keys m.connections) ≤ 1

  -- What a new entry needs.
  grown-IsCounted :
      (m m' : ConnManager B Addr) (key : ℕ) (c : Connection B Addr)
      (cs : List (ℕ × Connection B Addr))
      → keys cs ≡ keys m.connections
      → length cs ≡ length m.connections
      → occurrences key (keys m.connections) ≡ 0
      → m'.connections ≡ (key, c) ∷ cs
      → m'.connections_count ≡ m.connections_count + 1
      → IsCounted m
      → IsCounted m'
  unfolding active_connections
  grown-IsCounted m m' key c cs same_keys same_length absent e n i = record {
    counted = n ∙ omega (arith, i.counted) ∙ sym (ap length e);
    once = λ k. subst (λ ks. occurrences k ks ≤ 1) (sym (ap keys e)) (one_more k);
  }
    where
      one_more : (k : ℕ) → occurrences k (keys ((key, c) ∷ cs)) ≤ 1
      one_more k =
          unfold keys occurrences in
          (subst (λ ks. (if key == k then 1 else 0) + occurrences k ks ≤ 1) (sym same_keys)
            (elim (Bool-cases (key == k)) [
              | inl e ↦ ground (arith, absent)
              | inr e ↦ ground (arith, i.once k)
            ]))

  pub store-IsCounted :
      (m : ConnManager B Addr) (c : Connection B Addr) → IsCounted m → IsCounted (store m c)
  unfolding active_connections store
  store-IsCounted m c i = record {
    counted = i.counted ∙ sym (length-update c.key c m.connections);
    once = λ k.
        subst (λ ks. occurrences k ks ≤ 1) (sym (keys-update c.key c m.connections)) (i.once k);
  }

pub option_cases : {A : Type 0} → (o : Option A) → (o ≡ none) ⊎ ((a : A) × (o ≡ some a))
option_cases none = inl refl
option_cases (some a) = inr (a, refl)

module _ {B Addr : Type 0} (buf : Buffer B) where
  abbrev pub named : ConnManager B Addr → ℕ → ℕ → Option ℕ → Connection B Addr
  named m key fd choice = record (ConnPool.get buf m.conn_pool choice).0 { fd = fd; key = key }

  pub get-known :
      (m : ConnManager B Addr) (key fd : ℕ) (choice : Option ℕ) (c : Connection B Addr)
      → lookup key m.connections ≡ some c
      → get buf m key fd choice ≡ (c, m)
  unfolding get
  get-known m key fd choice c e = rw (get, e) refl

  pub get-new :
      (m : ConnManager B Addr) (key fd : ℕ) (choice : Option ℕ)
      → lookup key m.connections ≡ none
      → get buf m key fd choice ≡ (
        named m key fd choice,
        record m {
          connections = insert key (named m key fd choice) m.connections;
          connections_count = m.connections_count + 1;
          conn_pool = (ConnPool.get buf m.conn_pool choice).1;
        },
      )
  unfolding get
  get-new m key fd choice e = rw (get, e) refl

  -- From a right count, `get` returns the connection that stands under the key afterwards, and the
  -- count stays right.
  pub get-IsCounted :
      (m : ConnManager B Addr) (key fd : ℕ) (choice : Option ℕ)
      → IsCounted m
      → let (c, m') = get buf m key fd choice in (lookup key m'.connections ≡ some c) × IsCounted m'
  get-IsCounted m key fd choice i = elim (option_cases (lookup key m.connections)) [
    | inr (c, e) ↦ subst Held (sym (get-known m key fd choice c e)) (e, i)
    | inl e ↦ subst Held (sym (get-new m key fd choice e)) (
      ap (lookup key) (insert_new key (named m key fd choice) m.connections e)
          ∙ (unfold lookup in (ground arith)),
      grown-IsCounted m _ key (named m key fd choice) m.connections refl refl
          (lookup-none key m.connections e) (insert_new key (named m key fd choice) m.connections e)
          refl i,
    )
  ]
    where
      Held : Connection B Addr × ConnManager B Addr → Type 0
      Held (c, m') = (lookup key m'.connections ≡ some c) × IsCounted m'

  release-unknown :
      (m : ConnManager B Addr) (key : ℕ) → lookup key m.connections ≡ none → release buf m key ≡ m
  unfolding release
  release-unknown m key e = rw (release, e) refl

  pub released : ConnManager B Addr → ℕ → Connection B Addr → ConnManager B Addr
  released m key c = record m {
    connections = delete key m.connections;
    connections_count = m.connections_count - 1;
    conn_pool = ConnPool.put buf m.conn_pool c;
    release_fd_set = Maps.remove key m.release_fd_set;
    key_pool = KeyPool.put m.key_pool 0;
  }

  release-known :
      (m : ConnManager B Addr) (key : ℕ) (c : Connection B Addr)
      → lookup key m.connections ≡ some c
      → release buf m key ≡ released m key c
  unfolding release released ConnPool.cleared
  release-known m key c e = rw (release, e) refl

  -- From a right count, after `release` no connection stands under the key, and the count stays
  -- right.
  pub release-IsCounted :
      (m : ConnManager B Addr) (key : ℕ)
      → IsCounted m
      → (lookup key (release buf m key).connections ≡ none) × IsCounted (release buf m key)
  release-IsCounted m key i = elim (option_cases (lookup key m.connections)) [
    | inl e ↦ subst Gone (sym (release-unknown m key e)) (e, i)
    | inr (c, e) ↦ subst Gone (sym (release-known m key c e)) (gone c e)
  ]
    where
      Gone : ConnManager B Addr → Type 0
      Gone m' = (lookup key m'.connections ≡ none) × IsCounted m'

      gone : (c : Connection B Addr) → lookup key m.connections ≡ some c → Gone (released m key c)
      gone c e =
          unfold released active_connections in
          (
            lookup-delete key m.connections,
            record {
              counted = omega (
                arith,
                i.counted,
                i.once key,
                lookup-some key c m.connections e,
                length-delete key m.connections,
              );
              once = λ k. ground (arith, occurrences-delete key k m.connections, i.once k);
            },
          )

  -- With distinct keys and a right count, `fork` takes a key that no connection has, enters the
  -- new connection under it, and keeps keys distinct and the count right.
  pub fork-IsDistinct :
      (m : ConnManager B Addr) (c : Connection B Addr) (write : Bool) (choice : Option ℕ)
      → IsCounted m
      → IsDistinct (keys m.connections) m.key_pool
      → let (forked, main, m') = fork buf m c write choice in
        (lookup forked.key m.connections ≡ none)
        × (lookup forked.key m'.connections ≡ some forked)
        × IsCounted m'
        × IsDistinct (keys m'.connections) m'.key_pool
  unfolding fork
  fork-IsDistinct m c write choice i d = (
    ap (λ k. lookup k m.connections) named_so ∙ lookup-absent key m.connections fresh.1,
    ap (λ k. lookup k (fork buf m c write choice).2.connections) named_so
        ∙ ap (lookup key) entered
        ∙ (unfold lookup in (ground arith)),
    grown-IsCounted m (fork buf m c write choice).2 key forked rest same_keys
        (length-update main.key main m.connections) fresh.1 entered refl i,
    subst (λ ks. IsDistinct ks (KeyPool.get m.key_pool).1) (sym (ap keys entered ∙ keys_entered))
        fresh.2,
  )
    where
      key : ℕ
      key = (KeyPool.get m.key_pool).0

      forked : Connection B Addr
      forked = (Conn.fork buf c (ConnPool.get buf m.conn_pool choice).0 key write).0

      main : Connection B Addr
      main = (Conn.fork buf c (ConnPool.get buf m.conn_pool choice).0 key write).1

      rest : List (ℕ × Connection B Addr)
      rest = update main.key main m.connections

      named_so : forked.key ≡ key
      named_so = fork-key buf c (ConnPool.get buf m.conn_pool choice).0 key write

      fresh : Fresh (keys m.connections) (KeyPool.get m.key_pool)
      fresh = get-IsDistinct (keys m.connections) m.key_pool d

      same_keys : keys rest ≡ keys m.connections
      same_keys = keys-update main.key main m.connections

      entered : insert key forked rest ≡ (key, forked) ∷ rest
      entered =
          insert_new key forked rest
            (lookup-absent key rest (ap (occurrences key) same_keys ∙ fresh.1))

      keys_entered : keys ((key, forked) ∷ rest) ≡ key ∷ keys m.connections
      keys_entered = unfold keys in (ap (λ ks. key ∷ ks) same_keys)

  -- After the release of a connection that is there, the key pool does not give its key again: it
  -- gives the next new key, and its stack is as before the release.
  pub release-loses_key :
      (m : ConnManager B Addr) (key : ℕ) (c : Connection B Addr)
      → lookup key m.connections ≡ some c
      → KeyPool.get (release buf m key).key_pool
        ≡ (m.key_pool.next_key, record m.key_pool { next_key = m.key_pool.next_key + 1 })
  unfolding released KeyPool.put
  release-loses_key m key c e =
      ap (λ (m' : ConnManager B Addr). KeyPool.get m'.key_pool) (release-known m key c e)
      ∙ get-zero m.key_pool.next_key m.key_pool.stack

module _ {B Addr : Type 0} {S : Type 0}
    (callback : Connection B Addr → S → Bool × Connection B Addr × S) (fd_skipped : Option ℕ) where
  keys-close_each :
      (cs : List (ℕ × Connection B Addr)) (waiting : List ℕ) (s : S)
      → keys (close_each callback fd_skipped cs waiting s).0 ≡ keys cs
  unfolding close_each keys
  keys-close_each [] waiting s = refl
  keys-close_each ((key, c) ∷ cs) waiting s = ap (λ ks. key ∷ ks) (keys-close_each cs _ _)

  length-close_each :
      (cs : List (ℕ × Connection B Addr)) (waiting : List ℕ) (s : S)
      → length (close_each callback fd_skipped cs waiting s).0 ≡ length cs
  unfolding close_each
  length-close_each [] waiting s = refl
  length-close_each ((key, c) ∷ cs) waiting s = ap suc (length-close_each cs _ _)

  -- Closing all connections keeps them in the map until they are closed.
  pub close-IsCounted :
      (m : ConnManager B Addr) (s : S) → IsCounted m → IsCounted (close callback fd_skipped m s).0
  unfolding close active_connections
  close-IsCounted m s i = record {
    counted = i.counted ∙ sym (length-close_each m.connections [] s);
    once = λ k.
        subst (λ ks. occurrences k ks ≤ 1) (sym (keys-close_each m.connections [] s)) (i.once k);
  }
