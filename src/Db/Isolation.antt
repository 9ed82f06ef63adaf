-- ===== src/Db/Isolation.antt =====
-- src/db/queries.py: one query of a workspace, on its own rows and beside those of the others.
use cmo_agent.Common.{
  ℕ, suc, String, Bool, ◌≡◌, eq_refl, refl, ap, ◌∙◌, All, map, List, [], ◌∷◌, str_eq, true, false,
  take, if◌then◌else◌, Bool-cases, inl, inr,
}
use cmo_agent.Db.Tables.{Sql, scalar, scoped, any_row, count, exists, select, drop}
use cmo_agent.Db.Rows.{
  AccountRow, ApiKeyRow, BriefRow, CampaignRow, ContactRow, DraftRow, FeedbackRow, InvitationRow,
  LinkRow, MessageRow, NotificationRow, OutcomeRow, ScoreRow, SignalRow, UserRow, Db,
}
use cmo_agent.Db.Own.{
  select-own, count-own, own-append_mine, own-update, own-append_other, own-update_other,
  own-insert,
}
use cmo_agent.Db.Queries.Notices.{is_unread, Draft, draft_records}
use cmo_agent.Db.Queries.Uploads.{
  UploadContact, Upload, uploaded_account, uploaded_link, uploaded_contacts, next_number,
  create_campaign_accounts, linked_ids, matched, account_entry, is_in,
}
use cmo_agent.Db.Requests.{
  own, perform, view, invitation_list, a_score, signal_list, a_brief, brief_list, notification_list,
  draft_list, campaign_page, contact_list, campaign_accounts, Request, user_list, account_list,
  create_accounts_of, save_drafts_of, get_campaign_of, get_account_of, get_contacts_of,
  get_settings_of, list_users_of, list_invitations_of, get_user_of, get_user_by_email_of,
  get_score_of, get_signals_of, get_brief_of, list_briefs_of, list_notifications_of,
  get_drafts_of_account, get_drafts_of_campaign, list_campaigns_of, get_accounts_of,
  count_unread_of, deactivate_api_key_of, deactivate_user_of, update_user_role_of, mark_read_of,
  create_campaign_of, create_account_of, create_user_of, save_score_of, save_signal_of,
  save_brief_of, save_feedback_of, save_outcome_of, save_notification_of, update_message_of,
}

module _ (uuid : ℕ → String) (now : ℕ) (c w : String) where
  uploaded_contacts-mine :
      (n m : ℕ) (contacts : List UploadContact)
      → All (λ r. ContactRow.workspace_id r ≡ w) (uploaded_contacts uuid now c w n m contacts)
  uploaded_contacts-mine n m [] = tt
  uploaded_contacts-mine n m (ct ∷ contacts) = (refl, uploaded_contacts-mine n (suc m) contacts)

  -- the database after the first item of an upload
  one_upload : ℕ → Upload → Db → Db
  one_upload n u db = (create_campaign_accounts uuid now c w n (u ∷ []) db).1

  view-one_upload :
      (n : ℕ) (u : Upload) (db : Db) → view w (one_upload n u db) ≡ one_upload n u (view w db)
  unfolding one_upload
  view-one_upload n u db = rw (
    own-insert AccountRow.workspace_id w (uploaded_account uuid now c w n u) db.accounts,
    eq_refl w,
    own-insert LinkRow.workspace_id w (uploaded_link uuid now c w n) db.links,
    eq_refl w,
    own-append_mine ContactRow.workspace_id w db.contacts
        (uploaded_contacts uuid now c w n (suc (suc n)) u.contacts)
        (uploaded_contacts-mine n (suc (suc n)) u.contacts),
  )

  view-one_upload_other :
      (v : String) (n : ℕ) (u : Upload) (db : Db)
      → str_eq w v ≡ false
      → view v (one_upload n u db) ≡ view v db
  unfolding one_upload
  view-one_upload_other v n u db other = rw (
    own-insert AccountRow.workspace_id v (uploaded_account uuid now c w n u) db.accounts,
    other,
    own-insert LinkRow.workspace_id v (uploaded_link uuid now c w n) db.links,
    other,
    own-append_other ContactRow.workspace_id v w db.contacts
        (uploaded_contacts uuid now c w n (suc (suc n)) u.contacts)
        (uploaded_contacts-mine n (suc (suc n)) u.contacts) other,
  )

  created_alike :
      (n : ℕ) (uploads : List Upload) (db db' : Db)
      → (create_campaign_accounts uuid now c w n uploads db).0
        ≡ (create_campaign_accounts uuid now c w n uploads db').0
  created_alike n [] db db' = refl
  created_alike n (u ∷ uploads) db db' =
      ap (λ rest. uploaded_account uuid now c w n u ∷ rest)
        (created_alike (next_number uuid now c w n u) uploads _ _)

  view-uploads :
      (n : ℕ) (uploads : List Upload) (db : Db)
      → view w (create_campaign_accounts uuid now c w n uploads db).1
        ≡ (create_campaign_accounts uuid now c w n uploads (view w db)).1
  unfolding one_upload
  view-uploads n [] db = refl
  view-uploads n (u ∷ uploads) db =
      let m : ℕ = next_number uuid now c w n u in
      view-uploads m uploads (one_upload n u db)
      ∙ ap (λ d. (create_campaign_accounts uuid now c w m uploads d).1) (view-one_upload n u db)

  view-uploads_other :
      (v : String) (n : ℕ) (uploads : List Upload) (db : Db)
      → str_eq w v ≡ false
      → view v (create_campaign_accounts uuid now c w n uploads db).1 ≡ view v db
  unfolding one_upload
  view-uploads_other v n [] db other = refl
  view-uploads_other v n (u ∷ uploads) db other =
      view-uploads_other v (next_number uuid now c w n u) uploads (one_upload n u db) other
      ∙ view-one_upload_other v n u db other

draft_records-mine :
    (uuid : ℕ → String) (n now : ℕ) (w c a : String) (drafts : List Draft)
    → All (λ r. DraftRow.workspace_id r ≡ w) (draft_records uuid n now w c a drafts)
draft_records-mine uuid n now w c a [] = tt
draft_records-mine uuid n now w c a (d ∷ drafts) =
    (refl, draft_records-mine uuid (suc n) now w c a drafts)

module _ (S : Sql) (uuid : ℕ → String) (n now : ℕ) (w : String) where
  desc-own :
      {Row : Type 0} (ws : Row → String) (key : Row → ℕ) (p : Row → Bool) (rows : List Row)
      → S.order_desc key (select (scoped ws w p) (own ws w rows))
        ≡ S.order_desc key (select (scoped ws w p) rows)
  desc-own ws key p rows = ap (S.order_desc key) (select-own ws w p rows)

  linked_ids-view : (c : String) (db : Db) → linked_ids c w (view w db) ≡ linked_ids c w db
  linked_ids-view c db = rw (select-own LinkRow.workspace_id)

  pub reply-view :
      (r : Request) (db : Db)
      → (perform S uuid n now w r (view w db)).0 ≡ (perform S uuid n now w r db).0
  reply-view (get_campaign_of id) db = rw select-own
  reply-view (get_account_of id) db = rw select-own
  reply-view (get_contacts_of id) db =
      ap (λ rows. contact_list (S.unordered rows))
        (select-own ContactRow.workspace_id w (λ r. str_eq r.account_id id) db.contacts)
  reply-view (create_user_of email name role) db =
      elim (Bool-cases
        (exists (scoped UserRow.workspace_id w (λ r. str_eq r.email email)) db.users)) [
          | inl there ↦ rw (count-own, there) refl
          | inr new ↦ rw (count-own, new) refl
        ]
  reply-view get_settings_of db = rw select-own
  reply-view list_users_of db =
      ap (λ rows. user_list (S.order_asc UserRow.created_at rows))
        (select-own UserRow.workspace_id w UserRow.is_active db.users)
  reply-view list_invitations_of db =
      ap (λ rows. invitation_list rows)
        (desc-own InvitationRow.workspace_id InvitationRow.created_at
          (λ r. str_eq r.status "pending") db.invitations)
  reply-view (get_user_of id) db = rw select-own
  reply-view (get_user_by_email_of e) db = rw select-own
  reply-view (get_score_of a) db =
      ap (λ rows. a_score (scalar (take 1 rows)))
        (desc-own ScoreRow.workspace_id ScoreRow.scored_at (λ r. str_eq r.account_id a)
          db.account_scores)
  reply-view (get_signals_of a) db =
      ap (λ rows. signal_list rows)
        (desc-own SignalRow.workspace_id SignalRow.created_at (λ r. str_eq r.account_id a)
          db.signals)
  reply-view (get_brief_of a) db =
      ap (λ rows. a_brief (scalar (take 1 rows)))
        (desc-own BriefRow.workspace_id BriefRow.generated_at (λ r. str_eq r.account_id a)
          db.briefs)
  reply-view (list_briefs_of action limit) db =
      ap (λ rows. brief_list (take limit rows))
        (desc-own BriefRow.workspace_id BriefRow.overall_score (λ r. str_eq r.action_type action)
          db.briefs)
  reply-view (list_notifications_of unread limit) db =
      ap (λ rows. notification_list (take limit rows))
        (desc-own NotificationRow.workspace_id NotificationRow.created_at
          (λ r. if unread then is_unread r else true) db.notifications)
  reply-view (get_drafts_of_account a) db =
      ap (λ rows. draft_list rows)
        (desc-own DraftRow.workspace_id DraftRow.created_at (λ r. str_eq r.account_id a) db.drafts)
  reply-view (get_drafts_of_campaign c) db =
      ap (λ rows. draft_list rows)
        (desc-own DraftRow.workspace_id DraftRow.created_at (λ r. str_eq r.campaign_id c) db.drafts)
  reply-view (list_campaigns_of o l) db = rw count-own (
      ap
        (λ rows.
          campaign_page
            (take l (drop o rows), count (scoped CampaignRow.workspace_id w any_row) db.campaigns))
        (desc-own CampaignRow.workspace_id CampaignRow.created_at any_row db.campaigns))
  reply-view count_unread_of db = rw count-own
  reply-view (deactivate_api_key_of id) db = rw count-own
  reply-view (deactivate_user_of id) db = rw count-own
  reply-view (update_user_role_of id role) db = rw count-own
  reply-view (mark_read_of id) db = rw count-own
  reply-view (get_accounts_of c) db =
      let ids : List String = linked_ids c w db in
      ap (λ xs. campaign_accounts (matched S w xs (view w db))) (linked_ids-view c db)
      ∙ ap
          (λ rows. campaign_accounts (
            map (account_entry (S.unordered rows)) (
              S.unordered (
                select (scoped AccountRow.workspace_id w (λ r. is_in r.id ids))
                  (own AccountRow.workspace_id w db.accounts)))))
          (select-own ContactRow.workspace_id w (λ r. is_in r.account_id ids) db.contacts)
      ∙ ap
          (λ rows. campaign_accounts (
            map
              (account_entry (
                S.unordered (
                  select (scoped ContactRow.workspace_id w (λ r. is_in r.account_id ids))
                    db.contacts)))
              (S.unordered rows)))
          (select-own AccountRow.workspace_id w (λ r. is_in r.id ids) db.accounts)
  reply-view (create_accounts_of c uploads) db =
      ap account_list (created_alike uuid now c w n uploads (view w db) db)
  reply-view r db = refl

  pub view-perform_mine :
      (r : Request) (db : Db)
      → view w (perform S uuid n now w r db).1 ≡ (perform S uuid n now w r (view w db)).1
  view-perform_mine (create_campaign_of name icp seq) db =
      rw (own-insert CampaignRow.workspace_id w, eq_refl w)
  view-perform_mine (create_account_of name domain m) db =
      rw (own-insert AccountRow.workspace_id w, eq_refl w)
  view-perform_mine (create_user_of email name role) db =
      elim (Bool-cases
        (exists (scoped UserRow.workspace_id w (λ r. str_eq r.email email)) db.users)) [
          | inl there ↦ rw (count-own, there) refl
          | inr new ↦ rw (count-own, new) (rw (own-insert UserRow.workspace_id w, eq_refl w))
        ]
  view-perform_mine (save_score_of a icp pain time all conf fit non dis why) db =
      rw (own-insert ScoreRow.workspace_id w, eq_refl w)
  view-perform_mine (save_signal_of a type source fact impl conf rel rec date url) db =
      rw (own-insert SignalRow.workspace_id w, eq_refl w)
  view-perform_mine (save_brief_of a json action score conf version) db =
      rw (own-insert BriefRow.workspace_id w, eq_refl w)
  view-perform_mine (save_feedback_of rec type user action corr) db =
      rw (own-insert FeedbackRow.workspace_id w, eq_refl w)
  view-perform_mine (save_outcome_of a event opp details) db =
      rw (own-insert OutcomeRow.workspace_id w, eq_refl w)
  view-perform_mine (save_notification_of type priority title message m) db =
      rw (own-insert NotificationRow.workspace_id w, eq_refl w)
  view-perform_mine (update_message_of id status) db = rw (
      own-update MessageRow.workspace_id w (λ r. str_eq r.id id) (λ r. record r { status = status })
        db.messages (λ r. refl))
  view-perform_mine (deactivate_api_key_of id) db = rw (
      own-update ApiKeyRow.workspace_id w (λ r. str_eq r.id id)
        (λ r. record r { is_active = false }) db.api_keys (λ r. refl))
  view-perform_mine (deactivate_user_of id) db = rw (
      own-update UserRow.workspace_id w (λ r. str_eq r.id id) (λ r. record r { is_active = false })
        db.users (λ r. refl))
  view-perform_mine (update_user_role_of id role) db = rw (
      own-update UserRow.workspace_id w (λ r. str_eq r.id id) (λ r. record r { role = role })
        db.users (λ r. refl))
  view-perform_mine (mark_read_of id) db = rw (
      own-update NotificationRow.workspace_id w (λ r. str_eq r.id id)
        (λ r. record r { read = true }) db.notifications (λ r. refl))
  view-perform_mine (create_accounts_of c uploads) db = view-uploads uuid now c w n uploads db
  view-perform_mine (save_drafts_of c a drafts) db = rw (
      own-append_mine DraftRow.workspace_id w db.drafts (draft_records uuid n now w c a drafts)
        (draft_records-mine uuid n now w c a drafts))
  view-perform_mine r db = refl

  pub view-perform_other :
      (v : String) (r : Request) (db : Db)
      → str_eq w v ≡ false
      → view v (perform S uuid n now w r db).1 ≡ view v db
  view-perform_other v (create_campaign_of name icp seq) db other =
      rw (own-insert CampaignRow.workspace_id v, other)
  view-perform_other v (create_account_of name domain m) db other =
      rw (own-insert AccountRow.workspace_id v, other)
  view-perform_other v (create_user_of email name role) db other =
      elim (Bool-cases
        (exists (scoped UserRow.workspace_id w (λ r. str_eq r.email email)) db.users)) [
          | inl there ↦ rw there refl
          | inr new ↦ rw new (rw (own-insert UserRow.workspace_id v, other))
        ]
  view-perform_other v (save_score_of a icp pain time all conf fit non dis why) db other =
      rw (own-insert ScoreRow.workspace_id v, other)
  view-perform_other v (save_signal_of a type source fact impl conf rel rec date url) db other =
      rw (own-insert SignalRow.workspace_id v, other)
  view-perform_other v (save_brief_of a json action score conf version) db other =
      rw (own-insert BriefRow.workspace_id v, other)
  view-perform_other v (save_feedback_of rec type user action corr) db other =
      rw (own-insert FeedbackRow.workspace_id v, other)
  view-perform_other v (save_outcome_of a event opp details) db other =
      rw (own-insert OutcomeRow.workspace_id v, other)
  view-perform_other v (save_notification_of type priority title message m) db other =
      rw (own-insert NotificationRow.workspace_id v, other)
  view-perform_other v (update_message_of id status) db other = rw (
      own-update_other MessageRow.workspace_id v w (λ r. str_eq r.id id)
        (λ r. record r { status = status }) db.messages (λ r. refl) other)
  view-perform_other v (deactivate_api_key_of id) db other = rw (
      own-update_other ApiKeyRow.workspace_id v w (λ r. str_eq r.id id)
        (λ r. record r { is_active = false }) db.api_keys (λ r. refl) other)
  view-perform_other v (deactivate_user_of id) db other = rw (
      own-update_other UserRow.workspace_id v w (λ r. str_eq r.id id)
        (λ r. record r { is_active = false }) db.users (λ r. refl) other)
  view-perform_other v (update_user_role_of id role) db other = rw (
      own-update_other UserRow.workspace_id v w (λ r. str_eq r.id id)
        (λ r. record r { role = role }) db.users (λ r. refl) other)
  view-perform_other v (mark_read_of id) db other = rw (
      own-update_other NotificationRow.workspace_id v w (λ r. str_eq r.id id)
        (λ r. record r { read = true }) db.notifications (λ r. refl) other)
  view-perform_other v (create_accounts_of c uploads) db other =
      view-uploads_other uuid now c w v n uploads db other
  view-perform_other v (save_drafts_of c a drafts) db other = rw (
      own-append_other DraftRow.workspace_id v w db.drafts (draft_records uuid n now w c a drafts)
        (draft_records-mine uuid n now w c a drafts) other)
  view-perform_other v r db other = refl
