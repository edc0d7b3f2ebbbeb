-- ===== src/Audit/Tamper.antt =====
-- What the head hash of a chain binds: what every event in it records.
use acvjepa_project.Prelude.Int.{ℤ, pos}
use acvjepa_project.Prelude.Json.{Json, str, int, obj, end, field}
use acvjepa_project.Prelude.{
  length, last, ok, ℕ, String, ◌≡◌, refl, sym, ap, ◌∙◌, List, [], ◌∷◌, map, arith,
}
use acvjepa_project.Audit.Types.{Crypto, genesis_hash}
use acvjepa_project.Audit.{EventRow, AuditLedger, head_hash}
use acvjepa_project.Audit.Integrity.{verify_events}
use acvjepa_project.Audit.History.{chain_ends}
use acvjepa_project.Audit.Chain.{verify_events-IsChained}
use acvjepa_project.Audit.Contents.{content, HaveNoCollision, AvoidGenesis, same_contents}

-- What an event records, the payload by its canonical text.
pub record Facts : Type 0 where
  pub sequence : ℕ
  pub case_id : String
  pub event_type : String
  pub payload_text : String
  pub root : String
  pub signer_id : String
  pub created_ns : ℤ
  pub previous_event_hash : String

abbrev pub facts : Crypto → EventRow → Facts
facts c r = record {
  sequence = r.sequence;
  case_id = r.case_id;
  event_type = r.event_type;
  payload_text = c.values.dumps (obj r.payload);
  root = r.root;
  signer_id = r.signer_id;
  created_ns = r.created_ns;
  previous_event_hash = r.previous_event_hash;
}

abbrev no_facts : Facts
no_facts = record {
  sequence = 0;
  case_id = "";
  event_type = "";
  payload_text = "";
  root = "";
  signer_id = "";
  created_ns = pos 0;
  previous_event_hash = "";
}

-- The facts are read off the dictionary that is hashed.
abbrev facts_in : Json → Facts
facts_in
      (obj (
        field _ _ (
          field _ (int (pos n)) (
            field _ (str case_id) (
              field _ (str event_type) (
                field _ (str payload) (
                  field _ (str root) (
                    field _
                      (str signer_id)
                      (field _ (int created) (field _ (str previous) end)))))))))) =
    record {
      sequence = n;
      case_id = case_id;
      event_type = event_type;
      payload_text = payload;
      root = root;
      signer_id = signer_id;
      created_ns = created;
      previous_event_hash = previous;
    }
facts_in _ = no_facts

facts_read :
    (c : Crypto) (rs : List EventRow) → map facts_in (map (content c) rs) ≡ map (facts c) rs
facts_read c [] = refl
facts_read c (r ∷ rs) = ap (λ (l : List Facts). facts c r ∷ l) (facts_read c rs)

-- Whoever keeps the hash of a chain's last event can tell whether its history was changed: two ledgers
-- whose events verify_integrity accepts and whose last events have one hash have the same number of
-- events, and event by event the same sequence number, case, type, canonical text of the payload,
-- evidence root, signer, time and previous hash; provided that among these events none shares its hash
-- with one whose hashed dictionary is another, and that none has the hash of the genesis.
pub head_hash-binds :
    (c : Crypto) (s t : AuditLedger)
    → verify_events c s 1 genesis_hash s.events ≡ ok tt
    → verify_events c t 1 genesis_hash t.events ≡ ok tt
    → head_hash (last s.events) ≡ head_hash (last t.events)
    → AvoidGenesis c s.events
    → AvoidGenesis c t.events
    → HaveNoCollision c s.events t.events
    → map (facts c) s.events ≡ map (facts c) t.events
head_hash-binds c s t ok_s ok_t same new_s new_t apart =
    let chain_s = verify_events-IsChained c s 1 genesis_hash s.events ok_s in
    let chain_t = verify_events-IsChained c t 1 genesis_hash t.events ok_t in
    let contents =
      same_contents c s t (length s.events) s.events t.events (omega arith) chain_s chain_t new_s
        new_t apart
        (sym (chain_ends c s s.events chain_s).1 ∙ same ∙ (chain_ends c t t.events chain_t).1) in
    sym (facts_read c s.events)
    ∙ ap (λ (l : List Json). map facts_in l) contents
    ∙ facts_read c t.events
