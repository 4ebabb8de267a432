-- ===== src/NetConMap/View.antt =====
-- The table of connections as one map from a serial and an address. Where duplicates are not
-- allowed the address does not matter.
use gitee_fork_gateway.Prelude.{
  ◌≡◌, refl, ◌∙◌, Bool, true, false, ◌&&◌, Option, none, some, [], String, str_eq, str_eq_iff,
  if◌then◌else◌, arith, Option-cases, inl, inr,
}
use gitee_fork_gateway.SyncMap.{SyncMap, load-store, load-delete}
use gitee_fork_gateway.SyncMap
use gitee_fork_gateway.NetConMap.{
  NetConMap, Value, conn, table, inner, put_inner, count_call, delete, load,
}

-- Two pairs of a serial and an address name one entry.
abbrev pub same : Bool → String → String → String → String → Bool
same dup s k s' k' = if dup then str_eq s s' && str_eq k k' else str_eq s s'

module _ {ℓ} {V : Type ℓ} where
  -- What `Load` finds.
  abbrev pub view : NetConMap V → String → String → Option (Value V)
  view n serial subkey = (load n serial subkey).0

  -- With no other goroutine in between.
  abbrev pub alone : NetConMap V → NetConMap V
  alone n = n

  -- `n'` is `n` with one entry changed.
  pub record Updated (n n' : NetConMap V) (s k : String) (entry : Option (Value V)) : Type ℓ where
    pub unlocked : n'.mtx ≡ n.mtx
    pub mode : n'.allow_dup ≡ n.allow_dup
    pub entries :
        (s' k' : String)
        → view n' s' k' ≡ (if same n.allow_dup s k s' k' then entry else view n s' k')

  pub inner-put_inner :
      (n : NetConMap V) (s s' : String) (mp : SyncMap V)
      → inner (put_inner n s mp) s' ≡ (if str_eq s s' then some mp else inner n s')
  unfolding inner put_inner
  inner-put_inner n s s' mp = ground (arith, load-store s s' (table mp) n.deque)

  pub put_inner-fields :
      (n : NetConMap V) (s : String) (mp : SyncMap V)
      → ((put_inner n s mp).mtx ≡ n.mtx)
        × ((put_inner n s mp).allow_dup ≡ n.allow_dup)
        × ((put_inner n s mp).tms ≡ n.tms)
  unfolding put_inner
  put_inner-fields n s mp = (refl, refl, refl)

  -- `Delete` removes the entry that its key names, in both modes, and no other.
  pub delete-Updated : (n : NetConMap V) (s k : String) → Updated n (delete n s k) s k none
  unfolding delete load
  delete-Updated n s k = record {
    unlocked = ground (arith, λ (mp : SyncMap V). put_inner-fields n s mp);
    mode = ground (arith, λ (mp : SyncMap V). put_inner-fields n s mp);
    entries = λ s' k'. elim (Option-cases (inner n s)) [
      | inl e ↦ ground (arith, str_eq_iff s s', load-delete s s' n.deque)
      | inr (m, e) ↦ ground (
        arith,
        str_eq_iff s s',
        load-delete s s' n.deque,
        load-delete k k' m,
        inner-put_inner n s s' (SyncMap.delete k m),
        put_inner-fields n s (SyncMap.delete k m),
      )
    ];
  }

  -- Two tables that no `Load` tells apart.
  pub record Agree (n m : NetConMap V) : Type ℓ where
    pub unlocked : m.mtx ≡ n.mtx
    pub mode : m.allow_dup ≡ n.allow_dup
    pub entries : (s k : String) → view m s k ≡ view n s k

  pub Agree-trans : {n m o : NetConMap V} → Agree n m → Agree m o → Agree n o
  Agree-trans a b = record {
    unlocked = b.unlocked ∙ a.unlocked;
    mode = b.mode ∙ a.mode;
    entries = λ s k. b.entries s k ∙ a.entries s k;
  }

  pub Updated-Agree :
      {n m n' : NetConMap V} {s k : String} {entry : Option (Value V)}
      → Agree n m
      → Updated m n' s k entry
      → Updated n n' s k entry
  Updated-Agree {n} {m} {n'} {s} {k} {entry} a u = record {
    unlocked = u.unlocked ∙ a.unlocked;
    mode = u.mode ∙ a.mode;
    entries = λ s' k'. ground (arith, u.entries s' k', a.mode, a.entries s' k');
  }

  pub inner-count_call : (n : NetConMap V) (s : String) → inner (count_call n) s ≡ inner n s
  unfolding inner count_call
  inner-count_call n s = refl

  pub count_call-Agree : (n : NetConMap V) → Agree n (count_call n)
  unfolding load count_call inner
  count_call-Agree n = record { unlocked = refl; mode = refl; entries = λ s k. ground arith }

  pub put_inner-empty-Agree :
      (n : NetConMap V) (s : String)
      → n.allow_dup ≡ true
      → inner n s ≡ none
      → Agree n (put_inner n s [])
  unfolding load SyncMap.load
  put_inner-empty-Agree n s dup e = record {
    unlocked = (put_inner-fields n s []).0;
    mode = (put_inner-fields n s []).1;
    entries = λ s' k'.
        ground (arith, str_eq_iff s s', inner-put_inner n s s' [], put_inner-fields n s []);
  }

  pub put_inner-Updated :
      (n : NetConMap V) (s k : String) (v : V) (mp : SyncMap V)
      → n.allow_dup ≡ true
      → inner n s ≡ some mp
      → Updated n (put_inner n s (SyncMap.store k v mp)) s k (some (conn v))
  unfolding load
  put_inner-Updated n s k v mp dup e = record {
    unlocked = (put_inner-fields n s (SyncMap.store k v mp)).0;
    mode = (put_inner-fields n s (SyncMap.store k v mp)).1;
    entries = λ s' k'. ground (
      arith,
      str_eq_iff s s',
      load-store k k' v mp,
      inner-put_inner n s s' (SyncMap.store k v mp),
      put_inner-fields n s (SyncMap.store k v mp),
    );
  }

  pub deque-Updated :
      (n : NetConMap V) (s k : String) (v : V)
      → n.allow_dup ≡ false
      → Updated n (record n { deque = SyncMap.store s (conn v) n.deque }) s k (some (conn v))
  unfolding load
  deque-Updated n s k v no_dup = record {
    unlocked = refl;
    mode = refl;
    entries = λ s' k'. ground (arith, load-store s s' (conn v) n.deque);
  }

  -- From the lock on, where the second look finds no inner map either.
  pub put_new-Updated :
      (n : NetConMap V) (s k : String) (v : V)
      → n.allow_dup ≡ true
      → inner n s ≡ none
      → Updated n (put_inner (put_inner n s []) s (SyncMap.store k v [])) s k (some (conn v))
  put_new-Updated n s k v dup e = Updated-Agree (put_inner-empty-Agree n s dup e) (
      put_inner-Updated (put_inner n s []) s k v [] (ground (arith, put_inner-fields n s []))
        (ground (arith, inner-put_inner n s s [], str_eq_iff s s)))
