-- ===== src/AiSales/Models.antt =====
-- The registry of models of runtime/ai_models.py: `CATALOG`, `setup`, `credentials`, `select`,
-- `provider_key`, `text_response`.
use masih_panel.Base.Text.{nonempty, take_chars}
use masih_panel.Shop.Labels.{Unicode}
use masih_panel.Tx.{
  pure, gets, lift, raise_if, Result, bad_provider, key_missing, provider_failed, ◌>>=◌, ◌>>◌,
  model_missing, require, Tx,
}
use masih_panel.Store.{Db, Tier, Modality, Settings, AiModel, Provider}
use masih_panel.Base.{
  select_one, not, ◌||◌, insert_row, false, ◌&&◌, [], str_eq, exists, true, ◌∷◌, if◌then◌else◌,
  Bool, List, String,
}

abbrev pub same_modality : Modality → Modality → Bool
same_modality Modality.text Modality.text = true
same_modality Modality.image Modality.image = true
same_modality Modality.video Modality.video = true
same_modality _ _ = false

abbrev pub same_provider : Provider → Provider → Bool
same_provider Provider.openai Provider.openai = true
same_provider Provider.google Provider.google = true
same_provider Provider.groq Provider.groq = true
same_provider Provider.cloudflare Provider.cloudflare = true
same_provider Provider.fal Provider.fal = true
same_provider _ _ = false

abbrev listed : String → Provider → String → Modality → Tier → String → AiModel
listed model_key provider model_id modality tier title = record {
  model_key = model_key;
  provider = provider;
  model_id = model_id;
  modality = modality;
  tier = tier;
  title = title;
  active = true;
}

-- `CATALOG`
abbrev pub catalog_rows : List AiModel
catalog_rows =
    listed "oa-luna" Provider.openai "gpt-6-luna" Modality.text Tier.paid_tier "GPT-6 Luna"
    ∷ listed "oa-sol" Provider.openai "gpt-6.1-sol" Modality.text Tier.paid_tier "GPT-6.1 Sol"
    ∷ listed "oa-astra" Provider.openai "gpt-6-astra" Modality.text Tier.paid_tier "GPT-6 Astra"
    ∷ listed "oa-mini" Provider.openai "gpt-4.1-mini" Modality.text Tier.paid_tier "GPT-4.1 Mini"
    ∷ listed "oa-img2" Provider.openai "gpt-image-2" Modality.image Tier.paid_tier "GPT Image 2"
    ∷ listed "oa-flare" Provider.openai "gpt-image-2.5-flare" Modality.image Tier.paid_tier
        "GPT Image 2.5 Flare"
    ∷ listed "oa-sunburst" Provider.openai "gpt-image-2.5-sunburst" Modality.image Tier.paid_tier
        "GPT Image 2.5 Sunburst"
    ∷ listed "oa-imgmini" Provider.openai "gpt-image-1-mini" Modality.image Tier.paid_tier
        "GPT Image 1 Mini (legacy)"
    ∷ listed "gg-flash" Provider.google "gemini-3.8-flash" Modality.text Tier.free_tier
        "Gemini 3.8 Flash"
    ∷ listed "gg-lite" Provider.google "gemini-3.5-flash-lite" Modality.text Tier.free_tier
        "Gemini 3.5 Flash Lite"
    ∷ listed "gq-oss" Provider.groq "openai/gpt-oss-20b" Modality.text Tier.free_tier
        "GPT-OSS 20B on Groq"
    ∷ listed "gq-llama" Provider.groq "llama-3.3-70b-versatile" Modality.text Tier.free_tier
        "Llama 3.3 70B on Groq"
    ∷ listed "cf-glm" Provider.cloudflare "@cf/zai-org/glm-4.7-flash" Modality.text Tier.free_tier
        "GLM 4.7 Flash / Workers AI"
    ∷ listed "cf-gemma" Provider.cloudflare "@cf/google/gemma-4-26b-a4b-it" Modality.text
        Tier.free_tier "Gemma 4 / Workers AI"
    ∷ listed "cf-flux" Provider.cloudflare "@cf/black-forest-labs/flux-1-schnell" Modality.image
        Tier.free_tier "FLUX.1 Schnell / Workers AI"
    ∷ listed "fal-wan" Provider.fal "fal-ai/wan/v2.2-a14b/text-to-video" Modality.video
        Tier.paid_tier "Wan 2.2 video / fal"
    ∷ listed "fal-kling" Provider.fal "fal-ai/kling-video/v3/standard/text-to-video" Modality.video
        Tier.paid_tier "Kling 3 standard / fal"
    ∷ []

abbrev pub has_model_key : String → AiModel → Bool
has_model_key key m = str_eq m.model_key key

abbrev insert_model_once : AiModel → List AiModel → List AiModel
insert_model_once m ms = if exists (has_model_key m.model_key) ms then ms else insert_row m ms

-- the loop of `setup` over the catalog, with its `INSERT OR IGNORE`
unfoldable pub register_models : List AiModel → List AiModel → List AiModel
register_models [] ms = ms
register_models (m ∷ rest) ms = register_models rest (insert_model_once m ms)

abbrev pub is_openai : Provider → Bool
is_openai p = same_provider p Provider.openai

-- whether `provider_key(c, p)` finds a key
abbrev pub has_key : Settings → Provider → Bool
has_key s p = exists (same_provider p) s.ai_keys || is_openai p && s.ai_api_key

-- `credentials(c)[p]`
unfoldable pub has_credentials : Settings → Provider → Bool
has_credentials s p =
    has_key s p && (not (same_provider p Provider.cloudflare) || s.cloudflare_account)

abbrev pub is_selectable : String → Modality → AiModel → Bool
is_selectable key kind m = str_eq m.model_key key && same_modality m.modality kind && m.active

-- `select(c, key, kind)`
unfoldable pub select_model : String → Modality → Tx Db AiModel
select_model key kind = require model_missing (λ d. select_one (is_selectable key kind) d.ai.models)

-- `text_response(c, model, prompt, expanded=expanded)`, where the provider answers the request with
-- `reply`
unfoldable pub text_response : Unicode → AiModel → Result String → Bool → Tx Db String
text_response u model reply expanded = do
  s ← gets (λ d. d.settings)
  raise_if (same_provider model.provider Provider.fal) bad_provider
  raise_if (same_provider model.provider Provider.cloudflare && not s.cloudflare_account)
      bad_provider
  raise_if (not (has_key s model.provider)) key_missing
  answer ← lift reply
  raise_if (not (nonempty (u.strip answer))) provider_failed
  pure (take_chars (if expanded then 18000 else 3500) answer)
