-- ===== src/Routing/Sessions/Kept.antt =====
-- How long a binding of sticky_session.go (api-gateway/internal/routing) stays in the manager.
use pyairtable_go_services.Prelude.{
  ℕ, ◌-◌, ◌≤◌, ◌≡◌, refl, sym, ◌∙◌, ap, subst, inl, inr, String, Bool, true, false, ◌&&◌, [], ◌∷◌,
  some, arith, lookup, insert, erase, lookup-insert, lookup-erase, str_eq, eq_iff, eq_refl, ltb,
  Bool-cases, Option-cases,
}
use pyairtable_go_services.Routing.{Ref}
use pyairtable_go_services.Routing.Sessions.{
  SessionBinding, Bindings, Sessions, session_ttl, is_expired, new_binding, keep_bindings,
  get_instance, set_instance, remove_session, live_bindings, keep_session, perform_cleanup,
}

module _ (now : ℕ) (session_id service_name : String) (r : Ref) where
  abbrev IsKept : SessionBinding → Type 0
  IsKept b = (b.instance_ref ≡ r) × (b.created_at ≡ now)

  abbrev KeepsIn : Bindings → Type 0
  KeepsIn bindings = (b : SessionBinding) × (lookup service_name bindings ≡ some b) × IsKept b

  -- The session has the binding of the service to r that was made at the time `now`.
  abbrev pub Keeps : Sessions → Type 0
  Keeps sessions =
      (bindings : Bindings) × (lookup session_id sessions ≡ some bindings) × KeepsIn bindings

  abbrev pub is_same : String → String → Bool
  is_same other_id other_name = str_eq other_id session_id && str_eq other_name service_name

  insert-Keeps :
      (key : String) (bindings : Bindings) (sessions : Sessions)
      → (str_eq key session_id ≡ true → KeepsIn bindings)
      → Keeps sessions
      → Keeps (insert key bindings sessions)
  insert-Keeps key bindings sessions h (bs, found, kept) =
      elim (Bool-cases (str_eq key session_id)) [
        | inl e ↦ (bindings, lookup-insert key session_id bindings sessions ∙ rw e refl, h e)
        | inr e ↦ (bs, lookup-insert key session_id bindings sessions ∙ rw e found, kept)
      ]

  keep_bindings-Keeps :
      (key : String) (bindings : Bindings) (sessions : Sessions)
      → (str_eq key session_id ≡ true → KeepsIn bindings)
      → Keeps sessions
      → Keeps (keep_bindings key bindings sessions)
  unfolding lookup
  keep_bindings-Keeps key [] sessions h (bs, found, kept) =
      elim (Bool-cases (str_eq key session_id)) [
        | inl e ↦ let (b, none_is, rest) = h e in absurd (cc)
        | inr e ↦ (bs, lookup-erase key session_id sessions ∙ rw e found, kept)
      ]
  keep_bindings-Keeps key (b ∷ bindings) sessions h k = insert-Keeps key (b ∷ bindings) sessions h k

  insert-KeepsIn :
      (key : String) (b : SessionBinding) (bindings : Bindings)
      → (str_eq key service_name ≡ true → IsKept b)
      → KeepsIn bindings
      → KeepsIn (insert key b bindings)
  insert-KeepsIn key b bindings h (b', found, kept) = elim (Bool-cases (str_eq key service_name)) [
    | inl e ↦ (b, lookup-insert key service_name b bindings ∙ rw e refl, h e)
    | inr e ↦ (b', lookup-insert key service_name b bindings ∙ rw e found, kept)
  ]

  erase-KeepsIn :
      (key : String) (bindings : Bindings)
      → str_eq key service_name ≡ false
      → KeepsIn bindings
      → KeepsIn (erase key bindings)
  erase-KeepsIn key bindings e (b, found, kept) =
      (b, lookup-erase key service_name bindings ∙ rw e found, kept)

  -- The bindings of the session, found under another spelling of its identifier
  found_KeepsIn :
      (key : String) (bindings : Bindings) (sessions : Sessions)
      → lookup key sessions ≡ some bindings
      → Keeps sessions
      → str_eq key session_id ≡ true
      → KeepsIn bindings
  found_KeepsIn key bindings sessions at_key (bs, found, kept) e =
      let same : bs ≡ bindings = let same_key = (eq_iff key session_id).0 e in cc in
      subst KeepsIn same kept

  written-Keeps :
      (bindings : Bindings) (sessions : Sessions)
      → Keeps (insert session_id (insert service_name (new_binding now r) bindings) sessions)
  written-Keeps bindings sessions =
      let b = new_binding now r in
      let written = insert service_name b bindings in
      (
        written,
        lookup-insert session_id session_id written sessions ∙ rw (eq_refl session_id) refl,
        (
          b,
          lookup-insert service_name service_name b bindings ∙ rw (eq_refl service_name) refl,
          (refl, refl),
        ),
      )

  pub set_instance-Keeps :
      (sessions : Sessions) → Keeps (set_instance now session_id service_name r sessions)
  unfolding set_instance
  set_instance-Keeps sessions = elim (Option-cases (lookup session_id sessions)) [
    | inl e ↦ rw e (written-Keeps [] sessions)
    | inr (bs, e) ↦ rw e (written-Keeps bs sessions)
  ]

  pub set_instance_other-Keeps :
      (time : ℕ) (other_id other_name : String) (q : Ref) (sessions : Sessions)
      → is_same other_id other_name ≡ false
      → Keeps sessions
      → Keeps (set_instance time other_id other_name q sessions)
  unfolding set_instance
  set_instance_other-Keeps time other_id other_name q sessions other k =
      elim (Option-cases (lookup other_id sessions)) [
        | inl e ↦ rw e (
            insert-Keeps other_id (insert other_name (new_binding time q) []) sessions
              (λ same.
                let (bs, found, kept) = k in
                let same_key = (eq_iff other_id session_id).0 same in absurd (cc))
              k)
        | inr (bs, e) ↦ rw e (
            insert-Keeps other_id (insert other_name (new_binding time q) bs) sessions
              (λ same.
                insert-KeepsIn other_name (new_binding time q) bs
                  (λ same_name. absurd (cc (rw (same, same_name) at other)))
                  (found_KeepsIn other_id bs sessions e k same))
              k)
      ]

  pub remove_session-Keeps :
      (other_id other_name : String) (sessions : Sessions)
      → is_same other_id other_name ≡ false
      → Keeps sessions
      → Keeps (remove_session other_id other_name sessions)
  unfolding remove_session
  remove_session-Keeps other_id other_name sessions other k =
      elim (Option-cases (lookup other_id sessions)) [
        | inl e ↦ rw (remove_session, e) k
        | inr (bs, e) ↦
            rw (remove_session, e)
              (keep_bindings-Keeps other_id (erase other_name bs) sessions
                (λ same.
                  erase-KeepsIn other_name bs (rw same at other)
                    (found_KeepsIn other_id bs sessions e k same))
                k)
      ]

  kept_is_live :
      (time : ℕ) (b : SessionBinding)
      → time - now ≤ session_ttl
      → IsKept b
      → is_expired time b ≡ false
  kept_is_live time b soon (to_r, made) =
      let fresh : ltb session_ttl (time - now) ≡ false = ground arith in rw made fresh

  pub get_instance_kept :
      (time : ℕ) (sessions : Sessions)
      → time - now ≤ session_ttl
      → Keeps sessions
      → ((get_instance time session_id service_name sessions).0 ≡ some r)
        × Keeps (get_instance time session_id service_name sessions).1
  unfolding get_instance
  get_instance_kept time sessions soon (bs, found, (b, found_b, (to_r, made))) =
      let live = kept_is_live time b soon (to_r, made) in
      rw (get_instance, found, found_b, live)
        (
          ap some to_r,
          insert-Keeps session_id (insert service_name (record b { last_used = time }) bs) sessions
              (λ same.
                insert-KeepsIn service_name (record b { last_used = time }) bs (λ e. (to_r, made))
                  (b, found_b, (to_r, made)))
              (bs, found, (b, found_b, (to_r, made))),
        )

  pub get_instance_other-Keeps :
      (time : ℕ) (other_id other_name : String) (sessions : Sessions)
      → is_same other_id other_name ≡ false
      → Keeps sessions
      → Keeps (get_instance time other_id other_name sessions).1
  unfolding get_instance
  get_instance_other-Keeps time other_id other_name sessions other k =
      elim (Option-cases (lookup other_id sessions)) [
        | inl e ↦ rw (get_instance, e) k
        | inr (bs, e) ↦ elim (Option-cases (lookup other_name bs)) [
          | inl f ↦ rw (get_instance, e, f) k
          | inr (b, f) ↦ elim (Bool-cases (is_expired time b)) [
            | inl old ↦
                rw (get_instance, e, f, old)
                  (keep_bindings-Keeps other_id (erase other_name bs) sessions
                    (λ same.
                      erase-KeepsIn other_name bs (rw same at other)
                        (found_KeepsIn other_id bs sessions e k same))
                    k)
            | inr live ↦
                rw (get_instance, e, f, live)
                  (insert-Keeps other_id (insert other_name (record b { last_used = time }) bs)
                    sessions
                    (λ same.
                      insert-KeepsIn other_name (record b { last_used = time }) bs
                        (λ same_name. absurd (cc (rw (same, same_name) at other)))
                        (found_KeepsIn other_id bs sessions e k same))
                    k)
          ]
        ]
      ]

  live_bindings-KeepsIn :
      (time : ℕ) (bindings : Bindings)
      → time - now ≤ session_ttl
      → KeepsIn bindings
      → KeepsIn (live_bindings time bindings)
  unfolding live_bindings lookup
  live_bindings-KeepsIn time [] soon (b, found, kept) = absurd (cc)
  live_bindings-KeepsIn time (x ∷ bindings) soon (b, found, kept) =
      elim (Bool-cases (str_eq x.0 service_name)) [
        | inl same ↦
            let is_x : x.1 ≡ b = cc (rw same at found) in
            let kept_x = subst IsKept (sym is_x) kept in
            rw (kept_is_live time x.1 soon kept_x) (x.1, rw same refl, kept_x)
        | inr other ↦
            let (b', found', kept') =
              live_bindings-KeepsIn time bindings soon (b, rw other at found, kept) in
            elim (Bool-cases (is_expired time x.1)) [
              | inl old ↦ rw old (b', found', kept')
              | inr live ↦ rw live (b', rw other found', kept')
            ]
      ]

  keep_session-Keeps :
      (key : String) (bindings : Bindings) (rest : Sessions)
      → str_eq key session_id ≡ true
      → KeepsIn bindings
      → Keeps (keep_session key bindings rest)
  unfolding lookup
  keep_session-Keeps key [] rest same (b, found, kept) = absurd (cc)
  keep_session-Keeps key (x ∷ bindings) rest same k = (x ∷ bindings, rw same refl, k)

  keep_other-Keeps :
      (key : String) (bindings : Bindings) (rest : Sessions)
      → str_eq key session_id ≡ false
      → Keeps rest
      → Keeps (keep_session key bindings rest)
  unfolding lookup
  keep_other-Keeps key [] rest other k = k
  keep_other-Keeps key (x ∷ bindings) rest other (bs, found, kept) = (bs, rw other found, kept)

  pub perform_cleanup-Keeps :
      (time : ℕ) (sessions : Sessions)
      → time - now ≤ session_ttl
      → Keeps sessions
      → Keeps (perform_cleanup time sessions)
  unfolding perform_cleanup lookup
  perform_cleanup-Keeps time [] soon (bs, found, kept) = absurd (cc)
  perform_cleanup-Keeps time (s ∷ sessions) soon (bs, found, kept) =
      elim (Bool-cases (str_eq s.0 session_id)) [
        | inl same ↦
            let is_s : s.1 ≡ bs = cc (rw same at found) in
            keep_session-Keeps s.0 (live_bindings time s.1) (perform_cleanup time sessions) same
              (live_bindings-KeepsIn time s.1 soon (subst KeepsIn (sym is_s) kept))
        | inr other ↦
            keep_other-Keeps s.0 (live_bindings time s.1) (perform_cleanup time sessions) other
              (perform_cleanup-Keeps time sessions soon (bs, rw other at found, kept))
      ]
