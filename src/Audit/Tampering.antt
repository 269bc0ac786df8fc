-- ===== src/Audit/Tampering.antt =====
-- internal/audit/chain.go: what the root hash of a chain tells of the events below it.
use Prim.Native.String.{◌++◌ as join, count}
use mathlib.Core.List.{Memᴰ, reverse, reverse_aux, reverse-reverse}
use text.Mathlib.TextLemmas.{append_inj, append_cancel_left, append_cancel_right, length-append}
use remote_dev_skillkit.Prelude.{
  ℕ, suc, String, Option, some, List, [], ◌∷◌, string_eq, nat_eq, ◌≡◌, ◌≢◌, ◌⊎◌, inl, inr, map,
  arith, String_discrete, refl, ap, ◌+◌, Option-cases, sym, ◌∙◌,
}
use remote_dev_skillkit.Prelude.Errors.{passed, >>=-passed}
use remote_dev_skillkit.Audit.{
  ChainEntry, Chain, Digests, digest, hash_strings, hash_json, verify_entry, verify_entries,
  verify_chain,
}

framed :
    (p q a b : String)
    → count a ≡ count b
    → join p (join "\0" (join a "\0")) ≡ join q (join "\0" (join b "\0"))
    → (p ≡ q) × (a ≡ b)
framed p q a b size h =
    let tail = length-append a "\0" ∙ ap (λ k. k + 1) size ∙ sym (length-append b "\0") in
    let tails =
      length-append "\0" (join a "\0")
      ∙ ap (λ k. 1 + k) tail
      ∙ sym (length-append "\0" (join b "\0")) in
    let sizes =
      sym (length-append p (join "\0" (join a "\0")))
      ∙ ap count h
      ∙ length-append q (join "\0" (join b "\0")) in
    let (same, rest) = append_inj h (omega (arith, tails, sizes)) in
    (same, append_cancel_right a b "\0" (append_cancel_left "\0" _ _ rest))

module _ (d : Digests) where
  -- The root hash of a chain over encoded events, the last event first.
  unfoldable root : List String → String
  root [] = ""
  root (m ∷ ms) = hash_strings d (root ms) (digest d m)

  -- What `hashStrings` takes the SHA-256 of.
  abbrev pub frame : String → String → String
  frame a b = join a (join "\0" (join b "\0"))

  -- The texts below a root hash.
  abbrev IsBelow : String → List String → Type 0
  IsBelow s [] = ⊥
  IsBelow s (m ∷ ms) = (s ≡ m) ⊎ ((s ≡ frame (root ms) (digest d m)) ⊎ IsBelow s ms)

  -- Two different texts with one SHA-256, below two roots.
  abbrev Clash : List String → List String → Type 0
  Clash ms ns =
      (s : String) × (t : String) × IsBelow s ms
      × IsBelow t ns
      × (s ≢ t)
      × (d.sha256_hex s ≡ d.sha256_hex t)

  digest-apart :
      (s t : String)
      → digest d s ≡ digest d t
      → ((s ≢ t) × (d.sha256_hex s ≡ d.sha256_hex t)) ⊎ (s ≡ t)
  unfolding digest
  digest-apart s t h = elim (String_discrete s t) [
    | yes eq ↦ inr eq
    | no apart ↦ inl (apart, append_cancel_left "sha256:" _ _ h)
  ]

  module _ (sized : (s : String) → count (d.sha256_hex s) ≡ 64) where
    digest-size : (s : String) → count (digest d s) ≡ 71
    unfolding digest
    digest-size s = length-append "sha256:" (d.sha256_hex s) ∙ ap (λ k. 7 + k) (sized s)

    hash_strings-not_empty : (p h : String) → hash_strings d p h ≢ ""
    unfolding hash_strings
    hash_strings-not_empty p h eq =
        let size = digest-size (join p (join "\0" (join h "\0"))) in
        omega (arith, size, ap count eq)

    root-Clash : (ms ns : List String) → root ms ≡ root ns → Clash ms ns ⊎ (ms ≡ ns)
    unfolding root hash_strings
    root-Clash [] [] h = inr refl
    root-Clash [] (n ∷ ns) h = elim (hash_strings-not_empty (root ns) (digest d n) (sym h)) [ ]
    root-Clash (m ∷ ms) [] h = elim (hash_strings-not_empty (root ms) (digest d m) h) [ ]
    root-Clash (m ∷ ms) (n ∷ ns) h = elim (digest-apart _ _ h) [
      | inl (apart, one) ↦ inl (_, _, inr (inl refl), inr (inl refl), apart, one)
      | inr eq ↦
          let sizes = digest-size m ∙ sym (digest-size n) in
          let (same, digests) = framed (root ms) (root ns) (digest d m) (digest d n) sizes eq in
          elim (digest-apart m n digests) [
            | inl (apart, one) ↦ inl (m, n, inl refl, inl refl, apart, one)
            | inr texts ↦ elim (root-Clash ms ns same) [
              | inl (s, t, b, c, apart, one) ↦ inl (s, t, inr (inr b), inr (inr c), apart, one)
              | inr tails ↦ inr (ap (λ k. k ∷ ms) texts ∙ ap (λ k. n ∷ k) tails)
            ]
          ]
    ]

  -- The encodings of a chain's events, which `json.Marshal` gave for every one of them.
  abbrev pub encodings : List ChainEntry → List (Option String)
  encodings entries = map (λ e. d.marshal e.event) entries

  -- The texts that `VerifyChain` hashes for the entries: the encoding of an event, or the framed pair
  -- of the hashes of an entry.
  abbrev pub IsHashed : String → List ChainEntry → Type 0
  IsHashed s es =
      (e : ChainEntry) × Memᴰ e es
      × ((d.marshal e.event ≡ some s) ⊎ (s ≡ frame e.previous_hash e.event_hash))

  later : (s : String) (e : ChainEntry) (es : List ChainEntry) → IsHashed s es → IsHashed s (e ∷ es)
  later s e es (x, member, how) = (x, Memᴰ.tail member, how)

  -- One round of the loop.
  round :
      (n : ℕ) (r : List String) (e : ChainEntry) (m : String)
      → d.marshal e.event ≡ some m
      → verify_entry d n (root r) e ≡ passed tt
      → (e.previous_hash ≡ root r) × (e.event_hash ≡ digest d m) × (e.chain_hash ≡ root (m ∷ r))
  unfolding verify_entry hash_json root
  round n r e m encoded h = ground (arith, encoded, h)

  verify_entries-root :
      (n : ℕ) (r : List String) (es : List ChainEntry) (last : String)
      → verify_entries d n (root r) es ≡ passed last
      → (ms : List String) × (encodings es ≡ map some ms)
        × (last ≡ root (reverse_aux ms r))
        × ((s : String) → IsBelow s (reverse_aux ms r) → IsBelow s r ⊎ IsHashed s es)
  unfolding verify_entries hash_json verify_entry root
  verify_entries-root n r [] last h = ([], refl, ground (arith, h), λ s b. inl b)
  verify_entries-root n r (e ∷ es) last h = elim (Option-cases (d.marshal e.event)) [
    | inl none_ ↦ ground (arith, none_, h)
    | inr one ↦
        let (u, entry, rest) = >>=-passed (verify_entry d n (root r) e) _ h in
        let (previous, event, hash) = round n r e one.0 one.1 entry in
        let (ms, encoded, root_, below) =
          verify_entries-root (suc n) (one.0 ∷ r) es last (rw (sym hash, rest)) in
        (
          one.0 ∷ ms,
          ground (arith, one.1, encoded),
          root_,
          λ s b. elim (below s b) [
            | inl (inl is) ↦ inr (e, Memᴰ.head refl, inl (one.1 ∙ ap some (sym is)))
            | inl (inr (inl is)) ↦ inr (
              e,
              Memᴰ.head refl,
              inr (
                  is
                  ∙ ap (λ p. frame p (digest d one.0)) (sym previous)
                  ∙ ap (frame e.previous_hash) (sym event)),
            )
            | inl (inr (inr old)) ↦ inl old
            | inr new ↦ inr (later s e es new)
          ],
        )
  ]

  verify_chain-root :
      (chain : Chain)
      → verify_chain d chain ≡ passed tt
      → (ms : List String) × (encodings chain.entries ≡ map some ms)
        × (chain.root_hash ≡ root (reverse ms))
        × ((s : String) → IsBelow s (reverse ms) → IsHashed s chain.entries)
  unfolding verify_chain root
  verify_chain-root chain h =
      let (last, entries, top) : (last : String) × (verify_entries d 1 (root []) chain.entries
            ≡ passed last)
          × (chain.root_hash ≡ last) =
        ground (arith, h) in
      let (ms, encoded, root_, below) = verify_entries-root 1 [] chain.entries last entries in
      (
        ms,
        encoded,
        top ∙ root_,
        λ s b. elim (below s b) [ inl none_ ↦ absurd none_ | inr new ↦ new ],
      )

  -- A text hashed for one chain and another one hashed for a second chain, with one SHA-256.
  abbrev pub Collision : Chain → Chain → Type 0
  Collision a b =
      (s : String) × (t : String) × IsHashed s a.entries
      × IsHashed t b.entries
      × (s ≢ t)
      × (d.sha256_hex s ≡ d.sha256_hex t)

-- Two chains that `VerifyChain` accepts and whose root hashes are the same hold events with the same
-- encodings in the same order, unless two different texts have one SHA-256, one of them among the
-- texts that are hashed for the one chain, the other among those for the other chain: the
-- encodings of its events, and the framed pairs of the hashes of its entries. A digest in hexadecimal is
-- taken to have 64 characters.
pub verify_chain-tampering :
    (d : Digests)
    → ((s : String) → count (d.sha256_hex s) ≡ 64)
    → (a b : Chain) → verify_chain d a ≡ passed tt
    → verify_chain d b ≡ passed tt
    → a.root_hash ≡ b.root_hash
    → Collision d a b ⊎ (encodings d a.entries ≡ encodings d b.entries)
verify_chain-tampering d sized a b h k same =
    let (ms, encoded, top, below) = verify_chain-root d a h in
    let (ns, encoded', top', below') = verify_chain-root d b k in
    elim (root-Clash d sized (reverse ms) (reverse ns) (sym top ∙ same ∙ top')) [
      | inl (s, t, c, c', apart, one) ↦ inl (s, t, below s c, below' t c', apart, one)
      | inr eq ↦
          let texts = sym (reverse-reverse ms) ∙ ap reverse eq ∙ reverse-reverse ns in
          inr (encoded ∙ ap (map some) texts ∙ sym encoded')
    ]
