-- ===== src/Server/Register/Clears.antt =====
-- internal/server/register.go, staleRegisterAnnotations: which keys the loop sets.
use ascend_device_plugin.Base.{
  String, false, ◌||◌, ◌==◌, ◌≡◌, ◌≢◌, ◌⊎◌, refl, inl, inr, List, [], ◌∷◌, some, Memᴰ, arith,
  eq_iff, Bool-cases, Option-cases, ◌∙◌, ap, subst,
}
use ascend_device_plugin.Base.Dict.{
  Dict, lookup, lookup-insert, lookup-insert_self, lookup-insert_other,
}
use ascend_device_plugin.Server.Plugin.{node_register_anno, node_handshake_anno}
use ascend_device_plugin.Server.Register.{clear, clear_word, clear_words}

module _ (annotations : Dict String) where
  clear-other :
      (j key value : String) (clears : Dict String)
      → key ≢ j
      → lookup j (clear annotations key value clears) ≡ lookup j clears
  unfolding clear
  clear-other j key value clears ne = elim (Option-cases (lookup key annotations)) [
    | inl h ↦ rw (h, clear)
    | inr (old, h) ↦ rw (h, clear) (lookup-insert_other value clears ne)
  ]

  -- A key keeps its value where every clear of it would write the same one.
  clear-keeps :
      (j v key value : String) (clears : Dict String)
      → (key ≡ j → value ≡ v)
      → lookup j clears ≡ some v
      → lookup j (clear annotations key value clears) ≡ some v
  unfolding clear
  clear-keeps j v key value clears same h = elim (Option-cases (lookup key annotations)) [
    | inl e ↦ rw (e, clear) h
    | inr (old, e) ↦ rw (e, clear) (lookup-insert key j value clears ∙ ground (arith, eq_iff key j))
  ]

  clear-sets :
      (key value old : String) (clears : Dict String)
      → lookup key annotations ≡ some old
      → lookup key (clear annotations key value clears) ≡ some value
  unfolding clear
  clear-sets key value old clears h = rw (h, clear) (lookup-insert_self key value clears)

  module _ (current_word : String) where
    -- The words that the loop does not skip.
    abbrev pub IsStale : String → List String → Type 0
    IsStale word words = Memᴰ word words × (word ≢ "") × (word ≢ current_word)

    is_stale :
        (word : String)
        → (word == "" || word == current_word) ≡ false
        → (word ≢ "") × (word ≢ current_word)
    is_stale word h = ground (arith, eq_iff word "", eq_iff word current_word)

    pub clear_words-other :
        (j : String) (words : List String) (clears : Dict String)
        → ((word : String)
            → IsStale word words
            → (node_register_anno word ≢ j) × (node_handshake_anno word ≢ j))
        → lookup j (clear_words annotations current_word words clears) ≡ lookup j clears
    unfolding clear_words clear_word
    clear_words-other j [] clears h = refl
    clear_words-other j (word ∷ words) clears h =
        elim (Bool-cases (word == "" || word == current_word)) [
          | inl skip ↦
              rw (skip, clear_words)
                (clear_words-other j words clears λ w (m, ne, nc). h w (Memᴰ.tail m, ne, nc))
          | inr now ↦
              let (reg, hs) =
                (let (ne, nc) = is_stale word now in h word (Memᴰ.head refl, ne, nc)) in
              rw (now, clear_words)
                (clear_words-other j words _ (λ w (m, ne, nc). h w (Memᴰ.tail m, ne, nc))
                  ∙ clear-other j _ _ _ hs
                  ∙ clear-other j _ _ _ reg)
        ]

    -- Every clear of the key writes the value.
    abbrev pub Writes : String → String → Type 0
    Writes j v =
        (word : String)
        → (node_register_anno word ≡ j → "[]" ≡ v) × (node_handshake_anno word ≡ j → "" ≡ v)

    clear_words-keeps :
        (j v : String) (words : List String) (clears : Dict String)
        → Writes j v
        → lookup j clears ≡ some v
        → lookup j (clear_words annotations current_word words clears) ≡ some v
    unfolding clear_words clear_word
    clear_words-keeps j v [] clears same h = h
    clear_words-keeps j v (word ∷ words) clears same h =
        elim (Bool-cases (word == "" || word == current_word)) [
          | inl skip ↦ rw (skip, clear_words) (clear_words-keeps j v words clears same h)
          | inr now ↦
              let (reg, hs) = same word in
              rw (now, clear_words)
                (clear_words-keeps j v words _ same
                  (clear-keeps j v _ _ _ hs (clear-keeps j v _ _ _ reg h)))
        ]

    clear_word-sets :
        (j v word old : String) (clears : Dict String)
        → Writes j v
        → (node_register_anno word ≡ j) ⊎ (node_handshake_anno word ≡ j)
        → lookup j annotations ≡ some old
        → lookup j (clear_word annotations word clears) ≡ some v
    unfolding clear_word
    clear_word-sets j v word old clears same (inl e) there = clear-keeps j v _ _ _ (same word).1 (
        subst (λ k. lookup k (clear annotations (node_register_anno word) "[]" clears) ≡ some v) e
          (clear-sets _ "[]" old clears (rw e there) ∙ ap some ((same word).0 e)))
    clear_word-sets j v word old clears same (inr e) there =
        subst
          (λ k.
            lookup k (
              clear annotations (node_handshake_anno word) ""
                (clear annotations (node_register_anno word) "[]" clears))
            ≡ some v)
          e (clear-sets _ "" old _ (rw e there) ∙ ap some ((same word).1 e))

    pub clear_words-sets :
        (j v word old : String) (words : List String) (clears : Dict String)
        → Writes j v
        → IsStale word words
        → (node_register_anno word ≡ j) ⊎ (node_handshake_anno word ≡ j)
        → lookup j annotations ≡ some old
        → lookup j (clear_words annotations current_word words clears) ≡ some v
    unfolding clear_words
    clear_words-sets j v word old [] clears same (m, ne, nc) key there = elim m [ ]
    clear_words-sets j v word old (w ∷ words) clears same (Memᴰ.head e, ne, nc) key there =
        let now : (w == "" || w == current_word) ≡ false =
          ground (arith, eq_iff w "", eq_iff w current_word) in
        rw (now, clear_words)
          (clear_words-keeps j v words _ same (
            subst (λ x. lookup j (clear_word annotations x clears) ≡ some v) e
              (clear_word-sets j v word old clears same key there)))
    clear_words-sets j v word old (w ∷ words) clears same (Memᴰ.tail m, ne, nc) key there =
        clear_words-sets j v word old words _ same (m, ne, nc) key there
