-- ===== src/Protocol/Canonical.antt =====
-- crates/whale-protocol/src/canonical.rs: the items of a conversation. `V` is `serde_json::Value`.
use whale_ai_sdk.Base.{Bool, bool_eq, Eq, List, list_eq, Option, option_eq, String, string_eq}

pub data MessagePhase : Type 0 where
  commentary final_answer : MessagePhase

pub data CanonicalContent : Type 0 where
  text : String → CanonicalContent
  image : String → Option String → Option String → CanonicalContent
  audio : String → Option String → Option String → CanonicalContent

pub data CanonicalToolOutput (V : Type 0) : Type 0 where
  text : String → CanonicalToolOutput V
  structured : V → CanonicalToolOutput V
  blocks : List CanonicalContent → CanonicalToolOutput V

-- The fields of each variant in the order of the source.
pub data CanonicalItem (V : Type 0) : Type 0 where
  user_message : String → List CanonicalContent → CanonicalItem V
  assistant_message : String → List CanonicalContent → MessagePhase → CanonicalItem V
  reasoning : String → String → Option String → Option String → CanonicalItem V
  tool_call : String → String → Option String → String → Option V → String → CanonicalItem V
  tool_result : String → String → CanonicalToolOutput V → Bool → CanonicalItem V

-- `CanonicalItem::id`.
unfoldable pub id_of : {V : Type 0} → CanonicalItem V → String
id_of (user_message id content) = id
id_of (assistant_message id content phase) = id
id_of (reasoning id thinking signature encrypted) = id
id_of (tool_call id call_id namespace name arguments raw) = id
id_of (tool_result id call_id output is_error) = id

content_dec : Discrete CanonicalContent
content_dec = hlevel (Eq.dec string_eq)

module _ {V : Type 0} ⦃v : Eq V⦄ where
  output_dec : Discrete (CanonicalToolOutput V)
  output_dec = hlevel (Eq.dec string_eq, v.dec, content_dec)

  item_dec : Discrete (CanonicalItem V)
  item_dec = hlevel (Eq.dec string_eq, v.dec, content_dec, output_dec)

  instance unfoldable pub item_eq : Eq (CanonicalItem V)
  unfolding item_dec content_dec output_dec
  item_eq = record { dec = item_dec }
