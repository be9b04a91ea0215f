-- ===== src/Publish/Adapter.antt =====
-- app/adapters: the adapter interface, the result of a publish attempt, the two adapters that are
-- not implemented yet, and the registry.
use verisure_ads_automation.Base.{Bool, true, Option, none, some, String, if◌then◌else◌, is_some}
use verisure_ads_automation.Base.Text.{codes, is_blank}
use verisure_ads_automation.Exceptions.{value_error, not_implemented, Exception}
use verisure_ads_automation.Models.Provider.{Provider, meta, google, ProviderCredentials}
use verisure_ads_automation.Session.{Result, ok, raised}
use verisure_ads_automation.Publish.Spec.{CampaignSpec}

pub record PublishResult : Type 0 where
  pub success : Bool
  pub external_campaign_id : Option String
  pub error_message : Option String

abbrev pub invalid_result : String → Exception
invalid_result message = record { class = value_error; message = message }

-- `not text or not text.strip()`
abbrev pub is_missing : Option String → Bool
is_missing none = true
is_missing (some text) = is_blank (codes text)

-- The constructor, with the checks of `__post_init__`.
unfoldable pub new_publish_result : Bool → Option String → Option String → Result PublishResult
new_publish_result success external_campaign_id error_message =
    let result : PublishResult = record {
      success = success;
      external_campaign_id = external_campaign_id;
      error_message = error_message;
    } in
    if success
    then if is_missing external_campaign_id
      then raised (
          invalid_result
            "A successful PublishResult must include a non-empty external_campaign_id.")
      else if is_some error_message
      then raised (invalid_result "A successful PublishResult must not include an error_message.")
      else ok result
    else if is_missing error_message
    then raised (invalid_result "A failed PublishResult must include a non-empty error_message.")
    else if is_some external_campaign_id
    then raised (invalid_result "A failed PublishResult must not include an external_campaign_id.")
    else ok result

-- `BaseAdapter`
pub record BaseAdapter : Type 0 where
  pub publish : CampaignSpec → ProviderCredentials → Result PublishResult
  pub pause : String → Result (Unit {0})
  pub resume : String → Result (Unit {0})

abbrev missing : {A : Type 0} → String → Result A
missing message = raised (record { class = not_implemented; message = message })

abbrev pub meta_adapter : BaseAdapter
meta_adapter = record {
  publish = λ spec credentials. missing "MetaAdapter.publish is not implemented yet.";
  pause = λ external_campaign_id. missing "MetaAdapter.pause is not implemented yet.";
  resume = λ external_campaign_id. missing "MetaAdapter.resume is not implemented yet.";
}

abbrev pub google_adapter : BaseAdapter
google_adapter = record {
  publish = λ spec credentials. missing "GoogleAdapter.publish is not implemented yet.";
  pause = λ external_campaign_id. missing "GoogleAdapter.pause is not implemented yet.";
  resume = λ external_campaign_id. missing "GoogleAdapter.resume is not implemented yet.";
}

-- `ProviderAdapterRegistry.get`, as the publish service is given it.
abbrev pub Registry : Type 0
Registry = Provider → Result BaseAdapter

-- `ProviderAdapterRegistry()`
unfoldable pub adapter_registry : Registry
adapter_registry meta = ok meta_adapter
adapter_registry google = ok google_adapter
