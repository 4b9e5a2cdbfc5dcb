-- ===== src/Witnesses/Steps.antt =====
-- The theorems on the two steps when nothing fails and on the whole program, on concrete pages and
-- on a feed that names one address twice.
use ingest_pipeline.Prelude.{
  inl, true, Option, ℕ, zero, suc, ◌≡◌, refl, ap, false, none, some, List, [], ◌∷◌, ◌++◌, arith,
}
use ingest_pipeline.Prelude.Sort.{sort}
use ingest_pipeline.Prelude.Text.{Text, text, text_eq, byte_len}
use ingest_pipeline.Config.{for_tests}
use ingest_pipeline.Db.Articles.{get_by_url, same_key}
use ingest_pipeline.Db.Articles.Batch.{IsUnused, IsFreshSupply}
use ingest_pipeline.Db.Comparable.{is_comparable}
use ingest_pipeline.Db.Feeds.{get_last_ingested_pub_date}
use ingest_pipeline.Dedup.Check.{check_duplicate}
use ingest_pipeline.Entities.{decode_html_entities}
use ingest_pipeline.Extract.Html.{ExtractionResult, clean_with_trafilatura}
use ingest_pipeline.Extract.Title.{count_words}
use ingest_pipeline.Libs.{Libs}
use ingest_pipeline.Pipeline.Content.{
  extraction_error, process_content_step, settled, is_open, ContentStepStatus,
}
use ingest_pipeline.Pipeline.Content.Complete.{process_content_step-accepts, accepted_row}
use ingest_pipeline.Pipeline.Content.Retry.{failed_article}
use ingest_pipeline.Pipeline.Content.Short.{process_content_step-too_short}
use ingest_pipeline.Pipeline.Content.Stored.{find_article}
use ingest_pipeline.Pipeline.Fetch.{
  try_strategies, extraction_of, body_of, is_long_enough, strategies,
}
use ingest_pipeline.Pipeline.Fetch.Order.{first_text, AreTooShort, IsFirst, try_strategies-IsFirst}
use ingest_pipeline.Pipeline.Ingest.{process_ingest_step}
use ingest_pipeline.Pipeline.Ingest.Phantom.{IsPhantom, process_ingest_step-IsPhantom}
use ingest_pipeline.Pipeline.Ingest.Selected.{process_items-selected}
use ingest_pipeline.Pipeline.Ingest.Stores.{IsStored, loop_of, process_ingest_step-IsStored}
use ingest_pipeline.Pipeline.Items.{
  process_items, article_of, recent_items, newer, process_item, with_link, is_before_cutoff,
  cutoff_of,
}
use ingest_pipeline.Queue.Jobs.{pick_jobs}
use ingest_pipeline.Queue.Worker.{process_job}
use ingest_pipeline.Resolver.{resolve_source_url, is_shortener_domain}
use ingest_pipeline.Rss.Feed.{RssItem, parse_feed}
use ingest_pipeline.Rss.Fields.{non_empty, strip_html, unwrap_cdata, parse_date}
use ingest_pipeline.Rss.Urls.{normalize_url}
use ingest_pipeline.Samples.{env, item, one_article, job, page, feed, article}
use ingest_pipeline.Schema.{RawArticle}
use ingest_pipeline.Store.{Result, Env, World, Response, ok}
use ingest_pipeline.System.{schedules, picks, works_on, stays, then_steps}
use ingest_pipeline.System.Consistent.{Steps-IsConsistent}
use ingest_pipeline.System.Statements.{IsConsistent}
use ingest_pipeline.Workers.Handlers.{start_worker}
use ingest_pipeline.Workers.Scheduler.{handle_scheduled_run}

abbrev address : Text
address = text "https://example.org/new"

-- Every pattern matches, with the address as its group, and twice where all matches are asked for.
abbrev feed_libs : Libs
feed_libs = record env.libs {
  capture = λ pattern s. some address;
  captures_iter = λ pattern s. s ∷ s ∷ [];
}

abbrev feed_page : Response
feed_page = record page { payload = ok (text "<rss></rss>") }

abbrev feed_env : Env
feed_env = record env { libs = feed_libs; send = λ n r. ok feed_page }

abbrev new_item : RssItem
new_item = record {
  title = some address;
  link = some address;
  description = some address;
  image_url = some address;
  pub_date = none;
  author = some address;
}

feed_page-items :
    parse_feed feed_libs (text "<rss></rss>") feed.feed_url ≡ ok (new_item ∷ new_item ∷ [])
unfolding parse_feed non_empty decode_html_entities strip_html unwrap_cdata normalize_url parse_date
feed_page-items = refl

feed_env-supply : IsFreshSupply feed_env
feed_env-supply m n h = ground arith

unused : IsUnused feed_env 0 one_article.articles
unused k h = ground arith

process_ingest_step-IsStored_example :
    IsStored feed_env
      (λ n. refl)
      (text "feed")
      one_article
      (loop_of feed_env (λ n. refl) (text "feed") (new_item ∷ new_item ∷ []) one_article)
      (process_ingest_step (text "feed") feed_env one_article)
unfolding text_eq
process_ingest_step-IsStored_example =
    process_ingest_step-IsStored feed_env (λ n. refl) feed (text "feed") feed_page
      (text "<rss></rss>") (new_item ∷ new_item ∷ []) one_article refl refl refl refl refl
      feed_page-items feed_env-supply unused

-- What the loop makes of the first item and of the second.
abbrev made : ℕ → RawArticle
made id = article_of id 864000000000 (text "feed") address new_item

abbrev two_items : Result (ℕ × List RawArticle) × World
two_items = loop_of feed_env (λ n. refl) (text "feed") (new_item ∷ new_item ∷ []) one_article

two_items-made : two_items ≡ (ok (0, made 100 ∷ made 101 ∷ []), two_items.1)
unfolding process_items recent_items sort newer process_item with_link resolve_source_url
    is_shortener_domain text_eq get_by_url get_last_ingested_pub_date same_key is_before_cutoff
    cutoff_of
two_items-made = refl

process_ingest_step-IsPhantom_example :
    IsPhantom (made 100) (made 101) (process_ingest_step (text "feed") feed_env one_article)
unfolding text_eq same_key article_of
process_ingest_step-IsPhantom_example =
    process_ingest_step-IsPhantom feed_env (λ n. refl) feed_env-supply feed (text "feed") feed_page
      (text "<rss></rss>") (new_item ∷ new_item ∷ []) one_article refl refl refl refl refl
      feed_page-items unused 0 [] (made 100) [] (made 101) [] two_items.1 two_items-made refl

process_items-selected_example :
    (process_items (text "feed") none 5 (new_item ∷ item ∷ []) env one_article).0
    ≡ ok (1, article_of 100 5 (text "feed") address new_item ∷ [])
unfolding is_shortener_domain text_eq same_key is_before_cutoff
process_items-selected_example =
    process_items-selected env (text "feed") none 5 (λ n. refl) (new_item ∷ item ∷ []) one_article
      (refl, (refl, tt))

-- A text of 350 words.
abbrev words : ℕ → Text
words zero = text "word"
words (suc n) = text "a " ++ words n

abbrev story : Text
story = words 349

abbrev story_env : Env
story_env = record env {
  libs = record env.libs {
    trafilatura = λ html url.
        some (record {
          content_text = story;
          low_quality = false;
          page_url = none;
          page_title = none;
        });
  };
}

abbrev extracted : ExtractionResult
extracted = record { text = story; canonical_url = none; title_clean = none }

story_first : first_text story_env article.url 0 strategies ≡ (some extracted, 1)
unfolding body_of extraction_of is_long_enough byte_len clean_with_trafilatura count_words
story_first = refl

try_strategies-IsFirst_example :
    (found : Option ExtractionResult) × (m : ℕ) × (try_strategies article.url strategies story_env
        one_article
      ≡ (ok found, record one_article { requests = m }))
    × IsFirst story_env article.url 0 strategies (found, m)
try_strategies-IsFirst_example = try_strategies-IsFirst story_env article.url strategies one_article

-- Every page has the text of tests/content_step_tests.rs that is too short.
abbrev short_env : Env
short_env = record env {
  libs = record env.libs {
    trafilatura = λ html url. some (record {
      content_text = text "Too short content.";
      low_quality = false;
      page_url = none;
      page_title = none;
    });
  };
}

short_env-AreTooShort : AreTooShort short_env article.url 0 strategies
unfolding body_of byte_len clean_with_trafilatura
short_env-AreTooShort = (
  inl (omega arith),
  (inl (omega arith), (inl (omega arith), (inl (omega arith), (inl (omega arith), tt)))),
)

process_content_step-too_short_example :
    let (outcome, v) = process_content_step 7 (some for_tests) short_env one_article in
    (outcome ≡ ok (extraction_error 7 (text "all_strategies_failed") true))
    × (find_article 7 v ≡ some (failed_article article 864000000000))
    × (v.rejections ≡ one_article.rejections)
unfolding is_open is_comparable check_duplicate sort for_tests
process_content_step-too_short_example =
    process_content_step-too_short short_env (λ n. refl) article (some for_tests) one_article refl
      refl refl short_env-AreTooShort refl

process_content_step-accepts_example :
    let (outcome, v) = process_content_step 7 none story_env one_article in
    (outcome ≡ ok (settled 7 ContentStepStatus.pending_qualification (some (byte_len story)) none))
    × (find_article 7 v ≡ some (accepted_row article extracted 864000000000 864000000000))
unfolding is_open is_comparable check_duplicate sort
process_content_step-accepts_example =
    process_content_step-accepts story_env (λ n. refl) article none extracted one_article refl refl
      refl (ap (λ r. r.0) story_first) refl

-- A scheduled run, a pick of jobs and the work on one of them.
abbrev scheduled : World
scheduled = (handle_scheduled_run env one_article).1

abbrev picked : World
picked = (pick_jobs (text "a") 2 env scheduled).1

abbrev worked : World
worked = (process_job (start_worker (text "a") none) (job 1) env picked).1

Steps-IsConsistent_example : IsConsistent worked
Steps-IsConsistent_example =
    Steps-IsConsistent
      (then_steps one_article scheduled worked (schedules env one_article) (
        then_steps scheduled picked worked (picks env (text "a") 2 scheduled) (
          then_steps picked worked worked (works_on env (text "a") none (job 1) picked)
            (stays worked))))
      ((((refl, (refl, tt)), ((refl, tt), (tt, tt))), (refl, tt)), omega arith)
