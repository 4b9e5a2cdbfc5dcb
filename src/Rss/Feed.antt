-- ===== src/Rss/Feed.antt =====
-- The items of a feed, and the choice of its format (src/utils/rss_parser.rs).
use ingest_pipeline.Prelude.{
  ℕ, Bool, ◌||◌, Option, none, some, List, [], ◌∷◌, map, select, if◌then◌else◌, or_else, is_some,
}
use ingest_pipeline.Prelude.Text.{Text, text, trim, starts_with, strip_prefix, contains_text}
use ingest_pipeline.Entities.{decode_html_entities}
use ingest_pipeline.Libs.{Libs, json_str}
use ingest_pipeline.Rss.Fields.{
  non_empty, mapped, and_then, extract_tag, extract_nested_tag, unwrap_cdata, strip_html,
  parse_date,
}
use ingest_pipeline.Rss.Urls.{normalize_url}
use ingest_pipeline.Store.{Result, ok, err}

pub record RssItem : Type 0 where
  pub title : Option Text
  pub link : Option Text
  pub description : Option Text
  pub image_url : Option Text
  pub pub_date : Option ℕ
  pub author : Option Text

-- Items with a title or a link are kept.
unfoldable pub is_usable : RssItem → Bool
is_usable item = is_some item.title || is_some item.link

module _ (libs : Libs) where
  -- The first pattern of a list that captures.
  unfoldable pub first_capture : List Text → Text → Option Text
  first_capture [] xml = none
  first_capture (pattern ∷ rest) xml = or_else (libs.capture pattern xml) (first_capture rest xml)

  abbrev media_patterns : List Text
  media_patterns =
      text "(?i)<media:content[^>]*\\surl\\s*=\\s*\"([^\"]+)\""
      ∷ text "(?i)<media:thumbnail[^>]*\\surl\\s*=\\s*\"([^\"]+)\""
      ∷ []

  abbrev enclosure_patterns : List Text
  enclosure_patterns =
      text "(?i)<enclosure[^>]*\\stype\\s*=\\s*\"image/[^\"]*\"[^>]*\\surl\\s*=\\s*\"([^\"]+)\""
      ∷ text "(?i)<enclosure[^>]*\\surl\\s*=\\s*\"([^\"]+)\"[^>]*\\stype\\s*=\\s*\"image/[^\"]*\""
      ∷ []

  abbrev img_pattern : Text
  img_pattern = text "(?i)<img[^>]*\\ssrc\\s*=\\s*\"([^\"]+)\""

  unfoldable pub extract_rss_image : Text → Text → Option Text
  unfolding first_capture extract_tag
  extract_rss_image xml base_url =
      mapped (λ url. normalize_url url base_url)
        (or_else (first_capture media_patterns xml) (
          or_else (first_capture enclosure_patterns xml)
            (and_then (extract_tag libs xml (text "description")) (libs.capture img_pattern))))

  -- The text of a tag of RSS, and that of Atom, whose text may be escaped HTML.
  unfoldable pub plain_text : Text → Text
  unfolding trim
  plain_text s = trim (decode_html_entities libs (strip_html libs (unwrap_cdata libs s)))

  unfoldable pub plain_text_twice : Text → Text
  unfolding trim
  plain_text_twice s =
      trim (strip_html libs (decode_html_entities libs (strip_html libs (unwrap_cdata libs s))))

  unfoldable pub author_text : Text → Text
  unfolding trim
  author_text s = trim (decode_html_entities libs (unwrap_cdata libs s))

  unfoldable pub parse_rss2_item : Text → Text → RssItem
  unfolding plain_text author_text extract_rss_image
  parse_rss2_item base_url xml = record {
    title = non_empty (mapped plain_text (extract_tag libs xml (text "title")));
    link =
        mapped (λ url. normalize_url url base_url)
          (non_empty
            (mapped (λ s. trim (unwrap_cdata libs s)) (extract_tag libs xml (text "link"))));
    description = non_empty (mapped plain_text (extract_tag libs xml (text "description")));
    image_url = extract_rss_image xml base_url;
    pub_date = and_then (extract_tag libs xml (text "pubDate")) (λ s. parse_date libs (trim s));
    author = non_empty (
        mapped author_text (
          or_else (extract_tag libs xml (text "author"))
            (extract_tag libs xml (text "dc:creator"))));
  }

  unfoldable pub parse_rss2_feed : Text → Text → List RssItem
  unfolding parse_rss2_item is_usable
  parse_rss2_feed xml base_url = select is_usable (
      map (parse_rss2_item base_url)
        (libs.captures_iter (text "(?is)<item(?:\\s[^>]*)?>(.*?)</item>") xml))

  unfoldable pub extract_atom_link : Text → Text → Option Text
  extract_atom_link xml base_url =
      mapped (λ url. normalize_url url base_url)
        (or_else
          (libs.capture
            (text "(?i)<link[^>]*\\srel\\s*=\\s*\"alternate\"[^>]*\\shref\\s*=\\s*\"([^\"]+)\"")
            xml)
          (libs.capture (text "(?i)<link(?:\\s[^>]*)?\\shref\\s*=\\s*\"([^\"]+)\"") xml))

  -- An image in a tag: as it stands, or escaped.
  unfoldable pub img_in : Text → Text → Option Text
  unfolding extract_tag
  img_in xml tag = and_then (extract_tag libs xml tag) (λ s.
      or_else (libs.capture img_pattern s) (libs.capture img_pattern (decode_html_entities libs s)))

  unfoldable pub extract_atom_image : Text → Text → Option Text
  unfolding first_capture img_in
  extract_atom_image xml base_url =
      mapped (λ url. normalize_url url base_url)
        (or_else (first_capture media_patterns xml)
          (or_else (img_in xml (text "content")) (img_in xml (text "summary"))))

  unfoldable pub parse_atom_entry : Text → Text → RssItem
  unfolding plain_text_twice author_text extract_atom_link extract_atom_image
  parse_atom_entry base_url xml = record {
    title = non_empty (mapped plain_text_twice (extract_tag libs xml (text "title")));
    link = extract_atom_link xml base_url;
    description = non_empty (
        mapped plain_text_twice (
          or_else (extract_tag libs xml (text "summary")) (extract_tag libs xml (text "content"))));
    image_url = extract_atom_image xml base_url;
    pub_date =
        and_then
          (or_else (extract_tag libs xml (text "published"))
            (extract_tag libs xml (text "updated")))
          (λ s. parse_date libs (trim s));
    author = non_empty (
        mapped author_text (
          or_else (extract_nested_tag libs xml (text "author") (text "name"))
            (extract_tag libs xml (text "dc:creator"))));
  }

  unfoldable pub parse_atom_feed : Text → Text → List RssItem
  unfolding parse_atom_entry is_usable
  parse_atom_feed xml base_url = select is_usable (
      map (parse_atom_entry base_url)
        (libs.captures_iter (text "(?is)<entry(?:\\s[^>]*)?>(.*?)</entry>") xml))

  unfoldable pub json_author : Text → Option Text
  json_author a = or_else (json_str libs a (text "name")) (libs.json_as_str a)

  unfoldable pub parse_json_item : Text → RssItem
  unfolding json_author
  parse_json_item v = record {
    title = non_empty (json_str libs v (text "title"));
    link = non_empty (
        and_then (or_else (libs.json_get v (text "url")) (libs.json_get v (text "external_url")))
          libs.json_as_str);
    description = non_empty (
        mapped (λ s. trim (strip_html libs s))
          (and_then
            (or_else (libs.json_get v (text "summary")) (libs.json_get v (text "content_text")))
            libs.json_as_str));
    image_url = non_empty (
        and_then (or_else (libs.json_get v (text "image")) (libs.json_get v (text "banner_image")))
          libs.json_as_str);
    pub_date = and_then (json_str libs v (text "date_published")) (parse_date libs);
    author = non_empty (and_then (libs.json_get v (text "author")) json_author);
  }

  unfoldable pub parse_json_feed : Text → Result (List RssItem)
  unfolding parse_json_item is_usable
  parse_json_feed json = elim (libs.json_parse json) [
    | none ↦ err (text "Failed to parse JSON Feed")
    | some v ↦ elim (and_then (libs.json_get v (text "items")) libs.json_as_array) [
      | none ↦ err (text "JSON Feed missing 'items' array")
      | some values ↦ ok (select is_usable (map parse_json_item values))
    ]
  ]

  unfoldable pub parse_feed : Text → Text → Result (List RssItem)
  unfolding parse_json_feed parse_atom_feed parse_rss2_feed trim strip_prefix contains_text
  parse_feed xml_or_json base_url =
      let trimmed = trim xml_or_json in
      if starts_with (text "{") trimmed
      then parse_json_feed trimmed
      else if contains_text (text "<feed") trimmed
      then ok (parse_atom_feed trimmed base_url)
      else if contains_text (text "<rss") trimmed || contains_text (text "<channel") trimmed
      then ok (parse_rss2_feed trimmed base_url)
      else err (text "Unknown feed format: cannot detect RSS, Atom, or JSON Feed")
