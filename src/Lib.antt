-- ===== src/Lib.antt =====
-- Mirocraft's web panel: what its TypeScript and JavaScript compute, and theorems about it.
--
-- The panel is a React application that talks to the daemon over HTTP. Its parts, and the files
-- here that model them:
--
--   * `Api` models web/src/lib/api.ts, the client of the daemon's HTTP API. `Api.Session` is the
--     token in localStorage (`getToken`, `setToken`); `Api.Http` is `request`, with the headers
--     that it sets and the errors that it makes of an answer; `Api.Uri` is `encodeURIComponent`,
--     and `Api.Uri.Decode` describes what a server does to undo it. An `Endpoint` (`Api.Endpoint`)
--     is what one function of the client gives to `request` and what it returns of the body;
--     `perform` runs it. `Api.Accounts`, `Api.Servers`, `Api.Files`, `Api.Backups`, `Api.Catalog`,
--     `Api.Network` and `Api.Themes` hold the endpoints, under the functions' names in snake case,
--     with the types of their bodies in the same files or in `Api.Types`. Functions that do more
--     than one request and a reply (`login`, `logout`, `uploadFile`, the downloads) are calls:
--     `World → Outcome × World`.
--   * `Theme` models web/src/themes/index.ts (`Theme.Registry`), web/src/lib/theme.ts
--     (`Theme.Apply`), the script of web/index.html (`Theme.Prerender`), which paints the cached
--     theme before the application starts, and web/src/ThemeProvider.tsx (`Theme.Provider`), whose
--     events are the constructors of `Event` and whose effects run within the `step` that causes
--     them; a closure of an earlier render brings the custom themes that it knew. The provider
--     paints by `apply`, saves a choice by the endpoint `update_me`, and meets the script only
--     through the cache.
--   * `Docs` models web/scripts/docs-site.mjs, the build of the documentation site: the anchors of
--     headings (`Docs.Slug`), `escapeHtml` (`Docs.Escape`), `rewriteLink` (`Docs.Links`), the HTML
--     of headings, links, images and contents (`Docs.Html`), `screenshotGrid` (`Docs.Grid`), and
--     the check of the links of the site (`Docs.Check`), whose patterns run by `Docs.Scan`.
--   * `App` models web/src/App.tsx: `loadUser`, as a call that ends signed in or anonymous, and the
--     routes that a signed-in user, an administrator or anyone else has. The choice that
--     react-router makes among the routes is a parameter.
--   * `Console` models web/src/pages/ServerDetail.tsx: the lines of the console, the socket that
--     brings them, the commands, and the power buttons and the deletion, which send the endpoints
--     of `Api.Servers`. `step` is what one event does to the page; a socket that was detached still
--     tells that it has closed.
--   * `FileManager` models web/src/pages/ServerFiles.tsx. A handler is split at its calls: it
--     changes the page and starts jobs, and `settle` says what follows when a job has ended, which
--     may be another job. Jobs that are under way together end in any order. The collation of names
--     is a parameter. `FileManager.View` is what it shows.
--   * `Servers` models web/src/pages/Servers.tsx: the polls of the list and the load that they
--     collect (`Servers.Chart`), the buttons of a card, and the form that creates a server, whose
--     requests for versions can be answered late (`Servers.Form`). `Servers.View` is what a card
--     says, `Servers.Shown` what the page shows, `Servers.Running` the page with its calls under
--     way, and `Servers.Creations` is about those that create a server. `Console.View` is what the
--     page of one server says, and `Console.Shown` what it shows.
--   * `Pages` models the other pages, in web/src/pages, and the components around them, in
--     web/src/components: `Layout` (Layout.tsx), `Login` (Login.tsx), `Settings` (Settings.tsx),
--     `LinkedAccounts` (LinkedAccounts.tsx), `Admin` (Admin.tsx), `Bots` (BotSettings.tsx), and the
--     tabs of a server: `Properties` (ServerSettings.tsx), `Options` (ServerOptions.tsx), `Connect`
--     (ServerConnect.tsx), `Catalog` (ServerCatalog.tsx), `Modpacks` (ServerModpacks.tsx), `Search`
--     (the search box that these two share) and `Backups` (ServerBackups.tsx). As in `FileManager`,
--     a handler is split at its calls: it changes the page and starts jobs, `endpoint_of` says what
--     a job asks the daemon for, and `settle` what follows when it has ended. `Pages.Report` words
--     what a call threw, and `Pages.Flight` keeps the calls that are under way. The `View` of a
--     page is what it shows for a state (`Pages.Ui`): the text, the state and the handler of each
--     element, in the order of the source. `Pages.Run` says how a page runs: the browser acts on an
--     element that the page shows at that moment and that is not disabled, the page's timers fire,
--     the calls under way end in any order, and the page is shown anew after each of these.
--     `Pages.OneAction` puts the pages that keep one flag for their actions behind one interface,
--     `Actions`, which each of them fills.
--   * `Checks` models the gates of the build: web/src/themes/contrast.test.mjs (`Checks.Contrast`,
--     with `Checks.Tokens` for its `parseTokens`), which computes a contrast over floating point
--     numbers that are a parameter, and web/scripts/check-color-literals.mjs (`Checks.Literals`),
--     which takes the patterns of colours.
--   * `Prelude` holds what the others share: lists and tests over the native numbers, texts as
--     lists of code points, and dictionaries with text keys. `Tests` runs the definitions on
--     concrete inputs.
--
-- Bounds and fuel: `free_id` gives the loop of `slug` one round for each id that is taken and one
-- more, so that the rounds outnumber the ids that can be taken; `decimal` gives a number more
-- rounds than it has digits. The console keeps 1000 lines and a sparkline 24 samples, as in the
-- source.
--
-- Assumed: a text is a list of code points, so lone surrogates do not occur; a JSON number is a
-- natural number; a JSON object lists its members in the order of the source. `fetch` is a
-- parameter, and answers from a state of its own; what `JSON.parse` makes of a text is part of the
-- answer (`Payload`). localStorage works or is denied for as long as a model's step lasts. The
-- system's preference for a light theme is a parameter of `apply`.
--
-- Where the browser prints a quotient, writes a date, lowers letters or orders texts, the
-- definitions take that as a parameter.
--
-- Not modelled: the classes, the layout, the hints (titles, labels, placeholders, limits) and the
-- pictures of the pages, and the icons; the Markdown renderer that the documentation uses, and the
-- frame and styles of its pages; the scripts that drive a browser (web/scripts/e2e.mjs, shots.mjs)
-- and the one that keeps a file of the build; the daemon (cmd, internal), which is not in this
-- language and which the panel meets through `fetch` alone; the viewer in internal/api/docsui,
-- which is vendored.
pub mod Prelude
pub mod Api
pub mod Theme
pub mod App
pub mod Console
pub mod FileManager
pub mod Servers
pub mod Pages
pub mod Checks
pub mod Docs
pub mod Tests
