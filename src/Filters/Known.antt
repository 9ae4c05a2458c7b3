-- ===== src/Filters/Known.antt =====
-- The vendors that src/ccreport/filters.py knows by name.
use ccreport.Prelude.{List, [], ◌∷◌}
use ccreport.Prelude.Texts.{Text, codes}

-- `KNOWN_VENDORS`: what a sender or a subject contains, and the name to display
abbrev pub known_vendors : List (Text × Text)
known_vendors =
    (codes "amazon", codes "Amazon")
    ∷ (codes "apple", codes "Apple")
    ∷ (codes "uber", codes "Uber")
    ∷ (codes "lyft", codes "Lyft")
    ∷ (codes "delta", codes "Delta")
    ∷ (codes "united", codes "United Airlines")
    ∷ (codes "american airlines", codes "American Airlines")
    ∷ (codes "aa.com", codes "American Airlines")
    ∷ (codes "marriott", codes "Marriott")
    ∷ (codes "hilton", codes "Hilton")
    ∷ (codes "hyatt", codes "Hyatt")
    ∷ (codes "airbnb", codes "Airbnb")
    ∷ (codes "staples", codes "Staples")
    ∷ (codes "w.b. mason", codes "W.B. Mason")
    ∷ (codes "wbmason", codes "W.B. Mason")
    ∷ (codes "bhphotovideo", codes "B&H")
    ∷ (codes "b&h", codes "B&H")
    ∷ (codes "dell", codes "Dell")
    ∷ (codes "adobe", codes "Adobe")
    ∷ (codes "github", codes "GitHub")
    ∷ (codes "openai", codes "OpenAI")
    ∷ (codes "anthropic", codes "Anthropic")
    ∷ (codes "google", codes "Google")
    ∷ (codes "microsoft", codes "Microsoft")
    ∷ (codes "zoom", codes "Zoom")
    ∷ (codes "slack", codes "Slack")
    ∷ (codes "dropbox", codes "Dropbox")
    ∷ (codes "overleaf", codes "Overleaf")
    ∷ (codes "springer", codes "Springer")
    ∷ (codes "elsevier", codes "Elsevier")
    ∷ (codes "wiley", codes "Wiley")
    ∷ (codes "jstor", codes "JSTOR")
    ∷ (codes "acm", codes "ACM")
    ∷ (codes "ieee", codes "IEEE")
    ∷ (codes "siam", codes "SIAM")
    ∷ (codes "ams", codes "AMS")
    ∷ (codes "eventbrite", codes "Eventbrite")
    ∷ (codes "doordash", codes "DoorDash")
    ∷ (codes "grubhub", codes "Grubhub")
    ∷ (codes "fedex", codes "FedEx")
    ∷ (codes "ups", codes "UPS")
    ∷ (codes "usps", codes "USPS")
    ∷ (codes "home depot", codes "Home Depot")
    ∷ (codes "homedepot", codes "Home Depot")
    ∷ (codes "best buy", codes "Best Buy")
    ∷ (codes "bestbuy", codes "Best Buy")
    ∷ (codes "newegg", codes "Newegg")
    ∷ (codes "cdw", codes "CDW")
    ∷ (codes "expedia", codes "Expedia")
    ∷ (codes "labyrinth books", codes "Labyrinth Books")
    ∷ (codes "labyrinthbooks", codes "Labyrinth Books")
    ∷ (codes "jammin crepes", codes "Jammin Crepes")
    ∷ (codes "jammincrepes", codes "Jammin Crepes")
    ∷ (codes "princeton", codes "Princeton University")
    ∷ []
