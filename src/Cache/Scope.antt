-- ===== src/Cache/Scope.antt =====
-- Who may read an entry, and the exact-token key of an entry: `CacheScope`, `CacheNamespace` and
-- `ExactTokenCacheKey` of inference_runtime/cache.py.
use llama.Prelude.{
  ℕ, ◌≡◌, Bool, true, false, not, List, String, String_discrete, ℕ_discrete, is_yes, if◌then◌else◌,
}

pub data CacheKind : Type 0 where
  prefix session : CacheKind

pub data CacheVisibility : Type 0 where
  private workflow tenant : CacheVisibility

pub record CacheScope : Type 0 where
  pub tenant_id : String
  pub workflow_id : String
  pub agent_id : String
  pub visibility : CacheVisibility

pub record CacheNamespace : Type 0 where
  pub model_digest : String
  pub template_digest : String
  pub tokenizer_digest : String
  pub adapter_digest : String
  pub context_digest : String

pub record ExactTokenCacheKey : Type 0 where
  pub kind : CacheKind
  pub namespace : CacheNamespace
  pub token_ids : List ℕ

unfoldable pub Kind_discrete : Discrete CacheKind
Kind_discrete = hlevel

unfoldable pub Namespace_discrete : Discrete CacheNamespace
unfolding String_discrete
Namespace_discrete = hlevel String_discrete

unfoldable pub Key_discrete : Discrete ExactTokenCacheKey
unfolding String_discrete ℕ_discrete
Key_discrete = hlevel (String_discrete, ℕ_discrete)

unfoldable pub Index_discrete : Discrete (ExactTokenCacheKey × CacheScope)
unfolding String_discrete ℕ_discrete
Index_discrete = hlevel (String_discrete, ℕ_discrete)

abbrev pub is_tenant : CacheVisibility → Bool
is_tenant tenant = true
is_tenant _ = false

abbrev pub is_workflow : CacheVisibility → Bool
is_workflow workflow = true
is_workflow _ = false

-- `CacheScope.allows`
unfoldable pub allows : CacheScope → CacheScope → Bool
allows s requester =
    if not (is_yes (String_discrete s.tenant_id requester.tenant_id))
    then false
    else if is_tenant s.visibility
    then true
    else if not (is_yes (String_discrete s.workflow_id requester.workflow_id))
    then false
    else if is_workflow s.visibility
    then true
    else is_yes (String_discrete s.agent_id requester.agent_id)

-- `visibility_rank`
unfoldable pub visibility_rank : CacheVisibility → ℕ
visibility_rank private = 0
visibility_rank workflow = 1
visibility_rank tenant = 2

abbrev pub is_prefix : CacheKind → Bool
is_prefix prefix = true
is_prefix session = false

-- What a scope shares: nothing leaves the tenant; beyond that, an entry is shared with the whole
-- tenant, with its workflow or with its agent in that workflow.
pub data Shares (s r : CacheScope) : Type 0 where
  in_tenant : s.tenant_id ≡ r.tenant_id → s.visibility ≡ tenant → Shares s r
  in_workflow :
      s.tenant_id ≡ r.tenant_id
      → s.workflow_id ≡ r.workflow_id
      → s.visibility ≡ workflow
      → Shares s r
  same_agent :
      s.tenant_id ≡ r.tenant_id
      → s.workflow_id ≡ r.workflow_id
      → s.agent_id ≡ r.agent_id
      → s.visibility ≡ private
      → Shares s r
