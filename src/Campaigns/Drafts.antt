-- ===== src/Campaigns/Drafts.antt =====
-- What the operations of CampaignService keep of the rows of `campaigns`.
use verisure_ads_automation.Base.{
  ℕ, ◌≡◌, ◌≢◌, refl, Bool, true, false, Option, none, some, String, arith, ◌==◌, nat_eq, All,
  All-insert, All-update, In, In-update, In-insert_of_In,
}
use verisure_ads_automation.Exceptions.{Exception, campaign_not_found_error}
use verisure_ads_automation.Models.Provider.{Uuid, Instant}
use verisure_ads_automation.Models.Campaign.{
  draft, campaign_status_eq, campaign_status_eqb_iff, Campaign,
}
use verisure_ads_automation.Session.{
  Database, Session, Result, ok, raised, Action, query, lift, ◌>>=◌,
}
use verisure_ads_automation.Session.Keeps.{Keeps}
use verisure_ads_automation.Campaigns.Repository.{
  Campaigns, CampaignFields, create, is_draft, set_fields, set_archived, get_by_tenant_and_id,
  update_draft_fields, archive_draft,
}
use verisure_ads_automation.Campaigns.Fields.{
  IsBudget, IsTime, IsOrdered, validate_campaign_fields_iff,
}
use verisure_ads_automation.Campaigns.Service.{
  set_campaigns, validate_fields, new_draft, create_draft, CampaignUpdates, require_known, merge,
  merged_name, write_merged, found_or_raise, refresh, not_editable, not_archivable, write_draft,
  update_draft, archive_campaign,
}

-- The CHECK constraints on a row.
abbrev pub IsStorable : Campaign → Type 0
IsStorable c =
    IsBudget c.budget_type c.budget_amount c.currency
    × IsTime c.start_at
    × IsTime c.end_at
    × IsOrdered c.start_at c.end_at

-- Committed and in the transaction.
abbrev pub AreStorable : Session → Type 0
AreStorable s = All IsStorable s.saved.campaigns × All IsStorable s.current.campaigns

refresh-reads : (c : Campaign) (s : Session) → (refresh c s).1 ≡ s
refresh-reads c s = ground arith

-- The conditional UPDATE either changes no row, and raises, or is committed.
write_draft-Keeps :
    (P : Database → Type 0) (others : Database → Database) (f : Campaigns → ℕ × Campaigns)
    (x : Exception) (c : Campaign)
    → ((db : Database) → P db → P (others db))
    → ((db : Database) → P db → P (set_campaigns (f db.campaigns).1 db))
    → Keeps (λ s. P s.saved × P s.current) (write_draft others f x c)
unfolding write_draft
write_draft-Keeps P others f x c k w s (a, b) = go ((f (others s.current).campaigns).0 == 0) refl
  where
    db : Database
    db = set_campaigns (f (others s.current).campaigns).1 (others s.current)

    go :
        (z : Bool)
        → ((f (others s.current).campaigns).0 == 0) ≡ z
        → P (write_draft others f x c s).1.saved × P (write_draft others f x c s).1.current
    go true z = rw z (k s.saved a, w (others s.current) (k s.current b))
    go false z =
        rw (z, refresh-reads c (record { saved = db; current = db }))
          (w (others s.current) (k s.current b), w (others s.current) (k s.current b))

module _ (I : Session → Type 0) where
  pub lift-then :
      {A B : Type 0} (r : Result A) (k : A → Action B)
      → ((a : A) → r ≡ ok a → Keeps I (k a))
      → Keeps I (lift r >>= k)
  lift-then (ok a) k h = h a refl
  lift-then (raised e) k h = λ s i. i

  found-then :
      {B : Type 0} (e : Exception) (o : Option Campaign) (k : Campaign → Action B)
      → ((c : Campaign) → Keeps I (k c))
      → Keeps I (found_or_raise e o >>= k)
  found-then e none k h = λ s i. i
  found-then e (some c) k h = h c

storable_of :
    (f : CampaignFields)
    → validate_fields f ≡ ok tt
    → IsBudget f.budget_type f.budget_amount f.currency
      × IsTime f.start_at
      × IsTime f.end_at
      × IsOrdered f.start_at f.end_at
storable_of f e =
    (validate_campaign_fields_iff f.budget_type f.budget_amount f.currency f.start_at f.end_at).0 e

update_fields-Storable :
    (t i : Uuid) (f : CampaignFields) (rows : Campaigns)
    → validate_fields f ≡ ok tt
    → All IsStorable rows
    → All IsStorable (update_draft_fields t i f rows).1
unfolding update_draft_fields
update_fields-Storable t i f rows e =
    All-update IsStorable (is_draft t i) (set_fields f) rows (λ c _ _. storable_of f e)

archive-Storable :
    (t i : Uuid) (rows : Campaigns)
    → All IsStorable rows
    → All IsStorable (archive_draft t i rows).1
unfolding archive_draft
archive-Storable t i rows = All-update IsStorable (is_draft t i) set_archived rows (λ c _ h. h)

create-Keeps :
    (id : Uuid) (now : Instant) (t u : Uuid) (f : CampaignFields)
    → Keeps AreStorable (create_draft id now t u f)
unfolding create_draft create new_draft
create-Keeps id now t u f = lift-then AreStorable (validate_fields f) _ (λ _ e s h.
    let new =
      All-insert IsStorable (new_draft id now t u f) s.current.campaigns (storable_of f e) h.1 in
    (new, new))

-- A property of the database that other transactions keep.
module _ (P : Database → Type 0) (others : Database → Database)
    (kept : (db : Database) → P db → P (others db)) where
  abbrev pub Both : Session → Type 0
  Both s = P s.saved × P s.current

  -- The rest of update_draft after the read, and after the validation.
  abbrev written : Uuid → Uuid → CampaignUpdates → Campaign → Action Campaign
  written t i u c = write_merged others t i u c (merged_name u.name c.name)

  abbrev checked : Uuid → Uuid → CampaignUpdates → Campaign → Action Campaign
  checked t i u c = lift (validate_fields (merge u c)) >>= λ _. written t i u c

  written-Keeps :
      (t i : Uuid) (u : CampaignUpdates) (c : Campaign)
      → ((db : Database)
          → P db
          → P (set_campaigns (update_draft_fields t i (merge u c) db.campaigns).1 db))
      → (name : Option String) → Keeps Both (write_merged others t i u c name)
  written-Keeps t i u c k none s (a, b) = (kept s.saved a, kept s.current b)
  written-Keeps t i u c k (some name) s h =
      write_draft-Keeps P others (update_draft_fields t i (merge u c)) not_editable c kept k s h

  pub update-Keeps :
      (t i : Uuid) (u : CampaignUpdates)
      → ((f : CampaignFields)
          → validate_fields f ≡ ok tt
          → (db : Database) → P db
          → P (set_campaigns (update_draft_fields t i f db.campaigns).1 db))
      → Keeps Both (update_draft others t i u)
  unfolding update_draft
  update-Keeps t i u k =
      lift-then Both (require_known u.unknown)
        (λ _. query (λ db. get_by_tenant_and_id t i db.campaigns) >>= λ row.
          found_or_raise campaign_not_found_error row >>= checked t i u)
        (λ _ _ s h.
          found-then Both campaign_not_found_error (get_by_tenant_and_id t i s.current.campaigns)
            (checked t i u)
            (λ c.
              lift-then Both (validate_fields (merge u c)) (λ _. written t i u c)
                (λ _ e. written-Keeps t i u c (k (merge u c) e) (merged_name u.name c.name)))
            s h)

  pub archive-Keeps :
      (t i : Uuid)
      → ((db : Database) → P db → P (set_campaigns (archive_draft t i db.campaigns).1 db))
      → Keeps Both (archive_campaign others t i)
  unfolding archive_campaign
  archive-Keeps t i k s h =
      found-then Both campaign_not_found_error (get_by_tenant_and_id t i s.current.campaigns)
        (λ c. write_draft others (archive_draft t i) not_archivable c)
        (λ c. write_draft-Keeps P others (archive_draft t i) not_archivable c kept k) s h

-- create_draft, update_draft and archive_campaign write only rows that meet the CHECK constraints
-- of the schema: if all campaigns do, committed or not yet, they still do after the call, whether
-- it returns or raises. What other transactions commit meanwhile keeps it too.
pub campaigns-KeepStorable :
    (others : Database → Database)
    → ((db : Database) → All IsStorable db.campaigns → All IsStorable (others db).campaigns)
    → (id : Uuid) (now : Instant) (tenant_id created_by campaign_id : Uuid) (f : CampaignFields)
      (u : CampaignUpdates)
    → Keeps AreStorable (create_draft id now tenant_id created_by f)
      × Keeps AreStorable (update_draft others tenant_id campaign_id u)
      × Keeps AreStorable (archive_campaign others tenant_id campaign_id)
campaigns-KeepStorable others kept id now t by i f u =
    let P : Database → Type 0 = λ db. All IsStorable db.campaigns in
    (
      create-Keeps id now t by f,
      update-Keeps P others kept t i u (λ g e db. update_fields-Storable t i g db.campaigns e),
      archive-Keeps P others kept t i (λ db. archive-Storable t i db.campaigns),
    )

-- The row is among the campaigns, committed and in the transaction.
abbrev pub IsStored : Campaign → Session → Type 0
IsStored c s = In c s.saved.campaigns × In c s.current.campaigns

create-IsStored :
    (c : Campaign) (id : Uuid) (now : Instant) (t u : Uuid) (f : CampaignFields)
    → Keeps (IsStored c) (create_draft id now t u f)
unfolding create_draft create
create-IsStored c id now t u f = lift-then (IsStored c) (validate_fields f) _ (λ _ e s h.
    let old = In-insert_of_In c (new_draft id now t u f) s.current.campaigns h.1 in (old, old))

not_draft : (t i : Uuid) (c : Campaign) → c.status ≢ draft → is_draft t i c ≡ false
not_draft t i c n = ground (arith, campaign_status_eqb_iff c.status draft)

-- A campaign that is not a draft, an archived one for instance, is never written again: each of
-- create_draft, update_draft and archive_campaign keeps its row as it is, for any arguments and
-- whether the call returns or raises. Other transactions keep it too.
pub campaigns-KeepFinal :
    (others : Database → Database) (c : Campaign)
    → c.status ≢ draft
    → ((db : Database) → In c db.campaigns → In c (others db).campaigns)
    → (id : Uuid) (now : Instant) (tenant_id created_by campaign_id : Uuid) (f : CampaignFields)
      (u : CampaignUpdates)
    → Keeps (IsStored c) (create_draft id now tenant_id created_by f)
      × Keeps (IsStored c) (update_draft others tenant_id campaign_id u)
      × Keeps (IsStored c) (archive_campaign others tenant_id campaign_id)
unfolding update_draft_fields archive_draft
campaigns-KeepFinal others c n kept id now t by i f u =
    let P : Database → Type 0 = λ db. In c db.campaigns in
    (
      create-IsStored c id now t by f,
      update-Keeps P others kept t i u (λ g e db m.
          In-update (is_draft t i) (set_fields g) c db.campaigns m (not_draft t i c n)),
      archive-Keeps P others kept t i
          (λ db m. In-update (is_draft t i) set_archived c db.campaigns m (not_draft t i c n)),
    )
