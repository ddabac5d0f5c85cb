-- ===== src/Execution/Start/Harmless.antt =====
-- What the guest and the functions that serve it leave alone during `Execution::start` of
-- native/javex_nif/src/sandbox.rs.
use javex.Base.{ℕ, Bool, true, false, Option, none, some, List, message, ok_or}
use javex.Budgets.{Budgets}
use javex.Execution.{Provider}
use javex.Execution.Load.Laws.{Keeps, proceed-Keeps}
use javex.Execution.Start.{Linking, unwrap_or, link_plugin, configure, launch, find_bridge}

module _ {W M : Type 0} {p : Provider W} (linking : Linking W M p) (P : W → Type 0) where
  open linking use {Linker, Instance, Configure, Start}

  -- Nothing that the guest does breaks what holds of the world: its functions, and the host's that
  -- serve it, have no hold on it.
  pub record IsHarmless : Type 0 where
    pub instantiate : (l : Linker) (m : M) → Keeps P (linking.instantiate l m)
    pub define : (l : Linker) (n : List ℕ) (i : Instance) → Keeps P (linking.define l n i)
    pub configure_func : (i : Instance) → Keeps P (linking.configure_func i)
    pub call_configure : (f : Configure) (a b c : ℕ) → Keeps P (linking.call_configure f a b c)
    pub start_func : (i : Instance) → Keeps P (linking.start_func i)
    pub call_start : (s : Start) → Keeps P (linking.call_start s)
    pub realloc_func : (i : Instance) → Keeps P (linking.realloc_func i)
    pub step_func : (i : Instance) → Keeps P (linking.step_func i)

  module _ (h : IsHarmless) where
    link_plugin-Keeps : (b : Bool) (l : Linker) → Keeps P (link_plugin linking b l)
    unfolding link_plugin
    link_plugin-Keeps true l w v = v
    link_plugin-Keeps false l w v =
        proceed-Keeps P (linking.instantiate l linking.plugin w) _
          (h.instantiate l linking.plugin w v)
          (λ i w1 v1.
            proceed-Keeps P (linking.define l linking.namespace i w1) _
              (h.define l linking.namespace i w1 v1) (λ l' w2 v2. v2))

    configure-Keeps :
        (b : Bool) (i : Instance) (opts : Budgets) → Keeps P (configure linking b i opts)
    unfolding configure
    configure-Keeps false i opts w v = v
    configure-Keeps true i opts w v =
        proceed-Keeps P (linking.configure_func i w) _ (h.configure_func i w v) (λ f.
          h.call_configure f opts.max_callback_calls opts.max_callback_concurrency
            opts.max_callback_input)

    pub launch-Keeps : (opts : Budgets) (m : M) → Keeps P (launch linking opts m)
    unfolding launch
    launch-Keeps opts m w v =
        proceed-Keeps P (w, linking.new_linker) _ v
          (λ l w1 v1.
            proceed-Keeps P (link_plugin linking opts.static_mode l w1) _
              (link_plugin-Keeps opts.static_mode l w1 v1)
              (λ linked w2 v2.
                proceed-Keeps P (linking.instantiate linked.0 m w2) _
                  (h.instantiate linked.0 m w2 v2)
                  (λ i w3 v3.
                    let provider = unwrap_or linked.1 i in
                    let resumable = linking.has_step provider w3 in
                    proceed-Keeps P (configure linking resumable provider opts w3) _
                      (configure-Keeps resumable provider opts w3 v3)
                      (λ _ w4 v4.
                        proceed-Keeps P (linking.start_func i w4) _ (h.start_func i w4 v4)
                          (λ s w5 v5.
                            proceed-Keeps P (linking.call_start s w5) _ (h.call_start s w5 v5)
                              (λ _ w6 v6. v6))))))

    pub find_bridge-Keeps : (o : Option Instance) → Keeps P (find_bridge linking o)
    unfolding find_bridge
    find_bridge-Keeps none w v = v
    find_bridge-Keeps (some i) w v =
        proceed-Keeps P (w, ok_or (linking.get_memory i w) (message "provider has no memory")) _ v
          (λ _ w1 v1.
            proceed-Keeps P (linking.realloc_func i w1) _ (h.realloc_func i w1 v1) (λ _ w2 v2.
              proceed-Keeps P (linking.step_func i w2) _ (h.step_func i w2 v2) (λ _ w3 v3. v3)))
