-- ===== src/Tests/Audit.antt =====
-- A chain of two audit events under a digest that tells two texts apart.
use Prim.Native.String.{count}
use remote_dev_skillkit.Prelude.{
  String, Bool, true, false, some, [], ◌∷◌, ◌≡◌, ◌↔◌, ◌⊎◌, refl, pos, ◌==◌, string_eq,
  String_discrete,
}
use remote_dev_skillkit.Prelude.Int.{ℤ_discrete}
use native.Mathlib.Decide.{ℕ_discrete}
use remote_dev_skillkit.Prelude.Errors.{passed}
use remote_dev_skillkit.Audit.{
  AuditEvent, Chain, Digests, digest, hash_strings, hash_json, export_entries, export_chain,
  verify_entry, verify_entries, verify_chain, entry_of,
}
use remote_dev_skillkit.Audit.Evidence.{events_of, verify_chain-export}
use remote_dev_skillkit.Audit.Tampering.{Collision, encodings, verify_chain-tampering}

abbrev digits : Bool → String
digits true = "aaaaaaaaaaaaaaaaaaaaaaaaaaaaaaaaaaaaaaaaaaaaaaaaaaaaaaaaaaaaaaaa"
digits false = "bbbbbbbbbbbbbbbbbbbbbbbbbbbbbbbbbbbbbbbbbbbbbbbbbbbbbbbbbbbbbbbb"

digits-size : (b : Bool) → count (digits b) ≡ 64
digits-size true = refl
digits-size false = refl

abbrev digests : Digests
digests = record { sha256_hex = λ s. digits (s == "session.create"); marshal = λ e. some e.action }

abbrev created : AuditEvent
created = record {
  sequence = pos 1;
  actor = "operator";
  action = "session.create";
  target_id = "ses";
  message = "created session";
  at = pos 1_000;
}

abbrev joined : AuditEvent
joined = record created { sequence = pos 2; actor = "target"; action = "session.join" }

abbrev chain : Chain
chain = record {
  schema_version = "rdev.audit-chain.v1";
  generated_at = pos 2_000;
  event_count = 2;
  root_hash = digest digests "";
  entries =
      entry_of digests "" created (digest digests "session.create")
      ∷ entry_of digests (hash_strings digests "" (digest digests "session.create")) joined
          (digest digests "session.join")
      ∷ [];
}

exported : export_chain digests (created ∷ joined ∷ []) (pos 2_000) ≡ passed chain
unfolding export_chain export_entries hash_json hash_strings digest String_discrete
exported = refl

verified : verify_chain digests chain ≡ passed tt
unfolding verify_chain verify_entries verify_entry hash_json hash_strings digest String_discrete
    ℤ_discrete ℕ_discrete
verified = refl

verify_chain-export_example :
    (verify_chain digests chain ≡ passed tt)
    ↔ (export_chain digests (events_of chain.entries) chain.generated_at ≡ passed chain)
verify_chain-export_example = verify_chain-export digests chain

-- Another chain with the same root hash: its second event has another encoding, with the same digest.
abbrev left : AuditEvent
left = record joined { action = "session.leave" }

abbrev forged : Chain
forged = record chain {
  entries =
      entry_of digests "" created (digest digests "session.create")
      ∷ entry_of digests (hash_strings digests "" (digest digests "session.create")) left
          (digest digests "session.leave")
      ∷ [];
}

forged_too : verify_chain digests forged ≡ passed tt
unfolding verify_chain verify_entries verify_entry hash_json hash_strings digest String_discrete
    ℤ_discrete ℕ_discrete
forged_too = refl

verify_chain-tampering_example :
    Collision digests chain forged
    ⊎ (encodings digests chain.entries ≡ encodings digests forged.entries)
verify_chain-tampering_example =
    verify_chain-tampering digests (λ s. digits-size (s == "session.create")) chain forged verified
      forged_too refl
