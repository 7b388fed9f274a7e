-- ===== src/Chain/Names.antt =====
-- The management routines of mq_listener/plugin_chain.c: finding, listing, linking and unlinking.
use io_monitor.Prelude.{
  suc, ◌+◌, true, false, Option, none, some, List, [], ◌∷◌, ◌++◌, Bytes, length, length-append, All,
  ◌≡◌, refl, sym, ap, ◌∙◌, arith, Bool-cases, inl, inr,
}
use mathlib.Core.Option.{some-injective}
use io_monitor.Chain.{
  Plugin, label, label_size, label_written, count_plugins, list_plugins, is_named,
  locate_plugin_by_name, unlink, link_last,
}

module _ {S : Type 0} where
  -- Where a plugin stands in a chain, no plugin in front of it having the name.
  pub record IsFirst (name : Bytes) (p : Plugin S) (plugins : List (Plugin S)) : Type 0 where
    pub front : List (Plugin S)
    pub back : List (Plugin S)
    pub split : plugins ≡ front ++ p ∷ back
    pub named : is_named name p ≡ true
    pub others : All (λ q. is_named name q ≡ false) front
    pub unlinked : unlink name plugins ≡ front ++ back

  -- A plugin that is located has the name as its library or its alias, and is the first in the chain
  -- that has; unlinking takes it out and keeps all others in their order.
  locate-unlink :
      (name : Bytes) (p : Plugin S) (plugins : List (Plugin S))
      → locate_plugin_by_name name plugins ≡ some p
      → IsFirst name p plugins
  unfolding locate_plugin_by_name unlink
  locate-unlink name p [] h = cc
  locate-unlink name p (q ∷ plugins) h = elim (Bool-cases (is_named name q)) [
    | inl e ↦
        let same : q ≡ p = some-injective q p (rw e at h) in
        record {
          front = [];
          back = plugins;
          split = ap (λ t. t ∷ plugins) same;
          named = ap (is_named name) (sym same) ∙ e;
          others = tt;
          unlinked = rw e;
        }
    | inr e ↦
        let ih = locate-unlink name p plugins (rw e at h) in
        record {
          front = q ∷ ih.front;
          back = ih.back;
          split = ap (λ t. q ∷ t) ih.split;
          named = ih.named;
          others = (e, ih.others);
          unlinked = rw e (ap (λ t. q ∷ t) ih.unlinked);
        }
  ]

  -- Nothing is located exactly if no plugin has the name.
  locate-none :
      (name : Bytes) (plugins : List (Plugin S))
      → locate_plugin_by_name name plugins ≡ none
      → All (λ q. is_named name q ≡ false) plugins
  unfolding locate_plugin_by_name
  locate-none name [] h = tt
  locate-none name (q ∷ plugins) h = elim (Bool-cases (is_named name q)) [
    | inl e ↦ cc (rw e at h)
    | inr e ↦ (e, locate-none name plugins (rw e at h))
  ]

  pub link_last-append :
      (p : Plugin S) (plugins : List (Plugin S)) → link_last p plugins ≡ plugins ++ p ∷ []
  unfolding link_last
  link_last-append p [] = refl
  link_last-append p (q ∷ plugins) = ap (λ t. q ∷ t) (link_last-append p plugins)

  pub unlink-append :
      (name : Bytes) (front back : List (Plugin S)) (p : Plugin S)
      → All (λ q. is_named name q ≡ false) front
      → is_named name p ≡ true
      → unlink name (front ++ p ∷ back) ≡ front ++ back
  unfolding unlink
  unlink-append name [] back p h e = rw e
  unlink-append name (q ∷ front) back p h e = rw (h.0, unlink-append name front back p h.1 e)

  pub locate-append :
      (name : Bytes) (front back : List (Plugin S)) (p : Plugin S)
      → All (λ q. is_named name q ≡ false) front
      → is_named name p ≡ true
      → locate_plugin_by_name name (front ++ p ∷ back) ≡ some p
  unfolding locate_plugin_by_name
  locate-append name [] back p h e = rw e
  locate-append name (q ∷ front) back p h e = rw (h.0, locate-append name front back p h.1 e)

  -- list_plugins writes an entry, with its NUL, one byte behind the memory that it got for it.
  label_written-label_size : (p : Plugin S) → label_written p ≡ label_size p + 1
  unfolding label_written label_size label
  label_written-label_size p = label_case p.plugin_library p.plugin_alias
    where
      label_case :
          (library : Bytes) (alias : Option Bytes)
          → length (elim alias [ none ↦ library | some a ↦ library ++ (b':' ∷ a) ]) + 1
            ≡ length library + elim alias [ none ↦ 0 | some a ↦ 1 + length a ] + 1
      label_case library none = omega arith
      label_case library (some a) = omega (arith, length-append library (b':' ∷ a))

  -- There is an entry for every plugin.
  length-list_plugins :
      (plugins : List (Plugin S)) → length (list_plugins plugins) ≡ count_plugins plugins
  unfolding list_plugins count_plugins
  length-list_plugins [] = refl
  length-list_plugins (p ∷ plugins) = ap suc (length-list_plugins plugins)
