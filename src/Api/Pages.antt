-- ===== src/Api/Pages.antt =====
-- GET /campaigns: the pages of one list.
use verisure_ads_automation.Base.{
  ℕ, ◌+◌, ◌≤◌, ◌≡◌, refl, ap, sym, ◌∙◌, Bool, ◌&&◌, Option, List, [], ◌∷◌, ◌++◌, map, arith, nat_eq,
  length, take, drop, select_all, order_by, count_where, IsOrder, IsSorted, order_by-IsSorted,
  count_where-order_by, count_where-select_all, length-take, take-drop-append, ℤ, pos,
  if◌then◌else◌, Bool-cases, inl, inr,
}
use mathlib.Core.List.{map-append}
use verisure_ads_automation.Models.Provider.{Uuid}
use verisure_ads_automation.Models.Identity.{User}
use verisure_ads_automation.Models.Campaign.{CampaignStatus, Campaign, campaign_status_eq}
use verisure_ads_automation.Session.{Session, ok, raised}
use verisure_ads_automation.Campaigns.Repository.{
  Campaigns, is_visible, has_status, created_after, list_by_tenant,
}
use verisure_ads_automation.Campaigns.Service
use verisure_ads_automation.Api.Requests.{Server, Request, invalid_request, current_user}
use verisure_ads_automation.Api.Schemas.{
  CampaignRead, campaign_read, is_limit, is_offset, to_natural,
}
use verisure_ads_automation.Api.Routes.{list_campaigns}

created_after-IsOrder : IsOrder created_after
created_after-IsOrder = record {
  asymm = λ a b h. ground arith;
  not_trans = λ a b c h k. ground arith;
}

-- The campaigns of the tenant that are not deleted, with the status if one is given, newest first.
pub record IsListing (tenant_id : Uuid) (status : Option CampaignStatus) (rows all : Campaigns)
    : Type 0 where
  pub newest_first : IsSorted created_after all
  pub exactly :
      (p : Campaign → Bool)
      → count_where p all
        ≡ count_where (λ c. (is_visible tenant_id c && has_status status c) && p c) rows

abbrev listing : Uuid → Option CampaignStatus → Campaigns → Campaigns
listing tenant_id status rows =
    order_by created_after (select_all (λ c. is_visible tenant_id c && has_status status c) rows)

listing-IsListing :
    (tenant_id : Uuid) (status : Option CampaignStatus) (rows : Campaigns)
    → IsListing tenant_id status rows (listing tenant_id status rows)
listing-IsListing tenant_id status rows =
    let fits = λ (c : Campaign). is_visible tenant_id c && has_status status c in
    record {
      newest_first = order_by-IsSorted created_after created_after-IsOrder (select_all fits rows);
      exactly = λ p.
          count_where-order_by created_after p (select_all fits rows)
          ∙ count_where-select_all p fits rows;
    }

length-map : {A B : Type 0} (f : A → B) (xs : List A) → length (map f xs) ≡ length xs
length-map f [] = refl
length-map f (x ∷ xs) = omega (arith, length-map f xs)

-- The page of a list at a limit and an offset.
abbrev pub page : ℤ → ℤ → Campaigns → List CampaignRead
page limit offset all = map campaign_read (take (to_natural limit) (drop (to_natural offset) all))

page-le : (limit offset : ℤ) (all : Campaigns) → length (page limit offset all) ≤ to_natural limit
page-le limit offset all =
    let taken = drop (to_natural offset) all in
    omega (
      arith,
      length-map campaign_read (take (to_natural limit) taken),
      length-take (to_natural limit) taken,
    )

module _ (server : Server) (request : Request) (user : User) (status : Option CampaignStatus)
    (s : Session) (from : current_user server request s ≡ (ok user, s)) where
  -- The result of every limit and offset, over one list.
  abbrev pub Paged : Campaigns → Type 0
  Paged all =
      (limit offset : ℤ)
      → list_campaigns server request limit offset status s ≡ (
        if is_limit limit && is_offset offset
            then ok (page limit offset all)
            else raised invalid_request,
        s,
      )

  is_page : Paged (listing user.tenant_id status s.current.campaigns)
  unfolding list_campaigns Service.list_campaigns list_by_tenant
  is_page limit offset = elim (Bool-cases (is_limit limit && is_offset offset)) [
    | inl t ↦ ground arith
    | inr t ↦ ground arith
  ]

  -- For a user there is one list, of exactly the campaigns of the tenant that are not deleted and
  -- have the status if one is given, newest first, such that each request gets the part of it that
  -- the limit and the offset say, where the limit is from 1 to 200 and the offset not negative,
  -- and is refused as invalid otherwise, and nothing changes; no page has more campaigns than its limit,
  -- and a page followed by the next one is the page of the two limits together.
  pub list_campaigns-Paged :
      (all : Campaigns) × IsListing user.tenant_id status s.current.campaigns all
      × Paged all
      × ((limit offset : ℤ) → length (page limit offset all) ≤ to_natural limit)
      × ((l m o : ℕ)
          → page (pos l) (pos o) all ++ page (pos m) (pos (o + l)) all
            ≡ page (pos (l + m)) (pos o) all)
  list_campaigns-Paged =
      let all = listing user.tenant_id status s.current.campaigns in
      (
        all,
        listing-IsListing user.tenant_id status s.current.campaigns,
        is_page,
        λ limit offset. page-le limit offset all,
        λ l m o.
            sym (map-append campaign_read (take l (drop o all)) (take m (drop (o + l) all)))
            ∙ ap (map campaign_read) (take-drop-append l m o all),
      )
