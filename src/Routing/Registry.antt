-- ===== src/Routing/Registry.antt =====
-- Registrations of instances (api-gateway/internal/routing/service_registry.go).
use pyairtable_go_services.Prelude.{
  ◌≡◌, refl, ◌∙◌, ap, subst, inl, inr, String, false, List, [], ◌∷◌, ◌++◌, none, All, lookup,
  insert, erase, lookup-insert, lookup-erase, str_eq, eq_iff, eq_refl, if◌then◌else◌, Bool-cases,
  Option-cases,
}
use pyairtable_go_services.Routing.{
  Ref, Heap, Services, instances_of, register_service, ensure_service, without_first,
  store_instances, unregister_service,
}

instances_of-insert :
    (written name : String) (refs : List Ref) (services : Services)
    → instances_of name (insert written refs services)
      ≡ (if str_eq written name then refs else instances_of name services)
instances_of-insert written name refs services =
    rw (instances_of, lookup-insert written name refs services)
      (elim (Bool-cases (str_eq written name)) [ inl e ↦ rw e refl | inr e ↦ rw e refl ])

instances_of-erase :
    (gone name : String) (services : Services)
    → instances_of name (erase gone services)
      ≡ (if str_eq gone name then [] else instances_of name services)
instances_of-erase gone name services =
    rw (instances_of, lookup-erase gone name services)
      (elim (Bool-cases (str_eq gone name)) [ inl e ↦ rw e refl | inr e ↦ rw e refl ])

instances_of-store_instances :
    (written name : String) (refs : List Ref) (services : Services)
    → instances_of name (store_instances written refs services)
      ≡ (if str_eq written name then refs else instances_of name services)
instances_of-store_instances written name [] services = instances_of-erase written name services
instances_of-store_instances written name (r ∷ refs) services =
    instances_of-insert written name (r ∷ refs) services

instances_of-ensure_service :
    (ensured name : String) (services : Services)
    → instances_of name (ensure_service ensured services) ≡ instances_of name services
instances_of-ensure_service ensured name services = elim (Option-cases (lookup ensured services)) [
  | inl e ↦
      rw (ensure_service, e)
        (instances_of-insert ensured name [] services ∙ elim (Bool-cases (str_eq ensured name)) [
          | inl same ↦
              rw
                (
                  same,
                  instances_of,
                  subst (λ k. lookup k services ≡ none) ((eq_iff ensured name).0 same) e,
                )
                refl
          | inr other ↦ rw other refl
        ])
  | inr (refs, e) ↦ rw (ensure_service, e) refl
]

-- What a registration adds.
instances_of-register_service :
    (name other : String) (r : Ref) (services : Services)
    → instances_of other (register_service name r services) ≡ (
        if str_eq name other
        then instances_of name services ++ r ∷ []
        else instances_of other services)
unfolding register_service
instances_of-register_service name other r services =
    instances_of-insert name other (instances_of name (ensure_service name services) ++ r ∷ [])
      (ensure_service name services)
    ∙ rw
        (
          instances_of-ensure_service name name services,
          instances_of-ensure_service name other services,
        )
        refl

module _ (heap : Heap) where
  -- What is left once an instance is removed.
  instances_of-unregister_service :
      (name other id : String) (services : Services)
      → instances_of other (unregister_service heap name id services) ≡ (
          if str_eq name other
          then without_first heap id (instances_of name services)
          else instances_of other services)
  unfolding unregister_service without_first
  instances_of-unregister_service name other id services =
      elim (Option-cases (lookup name services)) [
        | inl e ↦
            rw (unregister_service, e)
              (elim (Bool-cases (str_eq name other)) [
                | inl same ↦
                    rw
                      (
                        same,
                        instances_of,
                        e,
                        subst (λ k. lookup k services ≡ none) ((eq_iff name other).0 same) e,
                      )
                      refl
                | inr different ↦ rw different refl
              ])
        | inr (refs, e) ↦
            rw (unregister_service, e)
              (instances_of-store_instances name other (without_first heap id refs) services
                ∙ rw (instances_of, e) refl)
      ]

  without_first-append :
      (refs : List Ref) (r : Ref)
      → All (λ x. str_eq (heap x).id (heap r).id ≡ false) refs
      → without_first heap (heap r).id (refs ++ r ∷ []) ≡ refs
  unfolding without_first
  without_first-append [] r h = rw (eq_refl (heap r).id) refl
  without_first-append (x ∷ refs) r h = rw (h.0, without_first-append refs r h.1) refl

  -- An instance whose identifier is new to the service can be taken back: every service then has the
  -- instances that it had before the registration, in their order.
  pub unregister_service-register_service :
      (name other : String) (r : Ref) (services : Services)
      → All (λ x. str_eq (heap x).id (heap r).id ≡ false) (instances_of name services)
      → instances_of other
          (unregister_service heap name (heap r).id (register_service name r services))
        ≡ instances_of other services
  unregister_service-register_service name other r services fresh =
      instances_of-unregister_service name other (heap r).id (register_service name r services)
      ∙ rw
          (
            instances_of-register_service name name r services,
            instances_of-register_service name other r services,
            eq_refl name,
            without_first-append (instances_of name services) r fresh,
          )
          (elim (Bool-cases (str_eq name other)) [
            | inl same ↦ rw same (ap (λ k. instances_of k services) ((eq_iff name other).0 same))
            | inr different ↦ rw different refl
          ])
