-- ===== src/Manager/State/Nodes.antt =====
-- internal/manager/manager.go, LoadNodeConfig: which entry of the file is the node's.
use ascend_device_plugin.Base.{
  String, ◌==◌, ◌≡◌, ◌≢◌, refl, sym, ap, ◌∙◌, ◌⊎◌, inl, inr, List, [], ◌∷◌, ◌++◌, Memᴰ, none, some,
  ok, err, Error, Result-cases, Bool-cases, eq_iff,
}
use ascend_device_plugin.Config
use ascend_device_plugin.Config.{NodeConfig, NodeListConfig, Files}
use ascend_device_plugin.Manager.State.{AscendManager, find_node, adopt, load_node_config}

module _ (f : Files) (path node_name : String) where
  -- The first node of the list that has the name.
  abbrev pub IsFirstNamed : List NodeConfig → NodeConfig → Type 0
  IsFirstNamed nodes n =
      (before after : List NodeConfig) × (nodes ≡ before ++ n ∷ after)
      × (n.name ≡ node_name)
      × ((m : NodeConfig) → Memᴰ m before → m.name ≢ node_name)

  -- LoadNodeConfig replaces the node configuration by the first entry for the node, where the file can be
  -- loaded and has one; otherwise the manager stays as it was.
  abbrev pub AdoptsNode : AscendManager → AscendManager → Type 0
  AdoptsNode loaded am =
      ((am ≡ loaded)
        × (((e : Error) × (Config.load_node_config f path ≡ err e))
            ⊎ ((list : NodeListConfig) × (Config.load_node_config f path ≡ ok list)
                × ((m : NodeConfig) → Memᴰ m list.nodes → m.name ≢ node_name))))
      ⊎ ((list : NodeListConfig) × (n : NodeConfig) × (Config.load_node_config f path ≡ ok list)
          × IsFirstNamed list.nodes n
          × (am ≡ record loaded { node_config = some n }))

  find_node-cases :
      (nodes : List NodeConfig)
      → ((find_node node_name nodes ≡ none)
          × ((m : NodeConfig) → Memᴰ m nodes → m.name ≢ node_name))
        ⊎ ((n : NodeConfig) × (find_node node_name nodes ≡ some n) × IsFirstNamed nodes n)
  unfolding find_node
  find_node-cases [] = inl (refl, λ m k. elim k [ ])
  find_node-cases (x ∷ nodes) = elim (Bool-cases (x.name == node_name)) [
    | inl hit ↦ inr (
      x,
      rw (hit, find_node) refl,
      ([], nodes, refl, (eq_iff x.name node_name).0 hit, λ m k. elim k [ ]),
    )
    | inr miss ↦
        let apart : x.name ≢ node_name = λ h. cc ((eq_iff x.name node_name).1 h) in
        elim (find_node-cases nodes) [
          | inl (p, nobody) ↦ inl (rw (miss, find_node) p, others x nodes apart nobody)
          | inr (n, p, (before, after, e, named, nobody)) ↦ inr (
            n,
            rw (miss, find_node) p,
            (x ∷ before, after, ap (λ l. x ∷ l) e, named, others x before apart nobody),
          )
        ]
  ]
    where
      others :
          (x : NodeConfig) (nodes : List NodeConfig)
          → x.name ≢ node_name
          → ((m : NodeConfig) → Memᴰ m nodes → m.name ≢ node_name)
          → (m : NodeConfig) → Memᴰ m (x ∷ nodes)
          → m.name ≢ node_name
      others x nodes apart nobody m (Memᴰ.head e) h = apart (ap (λ z. z.name) (sym e) ∙ h)
      others x nodes apart nobody m (Memᴰ.tail k) h = nobody m k h

  pub load_node_config-AdoptsNode :
      (am : AscendManager) → AdoptsNode am (load_node_config f path node_name am).1
  unfolding load_node_config adopt
  load_node_config-AdoptsNode am = elim (Result-cases (Config.load_node_config f path)) [
    | inr (e, p) ↦ inl (rw (load_node_config, p) refl, inl (e, p))
    | inl (list, p) ↦ elim (find_node-cases list.nodes) [
      | inl (q, nobody) ↦
          inl (rw (load_node_config, p) (ap (λ o. adopt am o) q), inr (list, p, nobody))
      | inr (n, q, first) ↦
          inr (list, n, p, first, rw (load_node_config, p) (ap (λ o. adopt am o) q))
    ]
  ]
