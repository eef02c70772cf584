-- ===== src/Lib.antt =====
-- DockerLs: which container images are fit to use, decided from evidence.
--
-- DockerLs scans the tags of an image with one scanner or two, rates each candidate, and says which
-- one to use and whether it may go to production. This library models the part that decides, which
-- is pure Python over values that scanners, registries and feeds delivered, and the limits that calls
-- of outside services are under. A candidate passes through it in this order:
--
--   * the choice of tags: dockerls/domain/value_objects/candidate_criteria.py is
--     Scanning/{Versions,Criteria}.antt, and dockerls/domain/value_objects/scan_plan.py is
--     Scanning/{Lines,Order,Plan}.antt: `_superseded`, the two orders, and `plan_scans`;
--   * the evidence: dockerls/domain/entities/{vulnerability,scan_result,image}.py and
--     dockerls/domain/value_objects/tristate.py are Evidence/{Vulnerability,Scan,Image,Tristate}.antt;
--   * its scores: dockerls/domain/value_objects/{security_score,security_tier,remediation_score}.py are
--     Scoring/{Score,Tier,Remediation}.antt, and dockerls/domain/entities/image_facts.py with
--     dockerls/domain/value_objects/{hardening,attack_surface}.py is
--     Hardening/{Facts,Factors,Surface}.antt;
--   * the second opinion: `CrossValidator.compare` of
--     dockerls/application/services/cross_validation.py is CrossValidation.antt, and what
--     `_validate_one` writes into the analysis is `apply_second_opinion` of Verdict/Analysis.antt;
--   * the verdict: dockerls/domain/value_objects/{confidence,production_readiness}.py are
--     Verdict/{Confidence,Readiness}.antt; `finalize_verdict` of
--     dockerls/application/services/verdict.py hands the evidence to both in Verdict/Analysis.antt, and
--     `rank` and `_deduplicate` of the same file are Verdict/Ranking.antt and
--     Verdict/Explanation.antt;
--   * the gate of a pipeline: dockerls/domain/value_objects/gate.py is Gate/Types.antt (its types),
--     Gate/Parse.antt (`Gate.parse`, `GateSet.parse`), Gate/Evaluate.antt (`evaluate`) and
--     Gate/Merge.antt (`merge_gates`);
--   * what a build adds: dockerls/domain/value_objects/inheritance.py is Inheritance.antt (`attribute`)
--     and Inheritance/Plan.antt (`plan`);
--   * what a build stands on: dockerls/domain/value_objects/base_upgrade.py is
--     Bases/{Reference,Lines,Variables,Upgrade}.antt: the parts of a reference, the `FROM` lines, the `ARG`
--     lines and variables, and `parse_bases`, `classify` and `rewrite`;
--   * what changed since: dockerls/domain/value_objects/{tag_history,scan_history}.py are
--     Histories/{Tags,Scans}.antt over the list of Histories/Bounded.antt, which both keep;
--   * the rules on a Dockerfile: dockerls/domain/entities/dockerfile_analysis.py is Dockerfile/Info.antt,
--     and of dockerls/infrastructure/dockerfile_validator.py `DockerfileParser` is Dockerfile/Parsing.antt
--     with Texts.antt and Stages.antt (`_resolve_final_stage`) below it, the checks, the score and the
--     tier are Dockerfile/{Checks,Score}.antt, and `suggest_hardening` is Dockerfile/Suggestions.antt;
--   * the policy of an organisation: dockerls/domain/value_objects/build_policy.py is BuildPolicy.antt (the
--     policy and `merged_with`) and BuildPolicy/Rules.antt (`evaluate`);
--   * the names of images: dockerls/domain/value_objects/{image_reference,platform,image_identity}.py and
--     measured_identity.py are Identity/{Reference,Platform,Canonical,Measured}.antt;
--   * what a repository exempts: dockerls/utils/ignore_file.py is Exemptions/Rules.antt, with
--     `_apply_ignore_rules` of dockerls/application/use_cases/recommend_images.py, and
--     dockerls/domain/value_objects/vex.py is Exemptions/Vex.antt;
--   * what is said of a run: dockerls/application/services/decision_summary.py is Runs/Summary.antt, the
--     status that ci_summary.py beside it makes of that is Runs/Ci.antt, and run_diff.py, which compares
--     two saved runs, is Runs/Diff.antt over the JSON values of Runs/Json.antt;
--   * calls of services: dockerls/utils/rate_limit.py is Resilience/{Limiter,Breaker}.antt, and
--     dockerls/utils/single_flight.py is SingleFlight/{Flights,Steps}.antt, the table of flights and the
--     steps that callers and tasks take on it, and
--     dockerls/application/services/fallback_scanner.py is Resilience/Fallback.antt;
--   * what may be contacted: dockerls/domain/value_objects/network_policy.py is
--     Network/{Address,Policy}.antt, and dockerls/infrastructure/network/host_guard.py is
--     Network/Guard.antt.
--
-- Prelude and its children hold what the parts share: tests on numbers, lists and quantifiers over
-- them, integers, Python's `str` and `float`. Modules named Laws, and those that are named for what
-- they prove, are about the module above them; Examples holds concrete inputs.
--
-- How values are represented:
--   * A text is a list of code points; what the modelled code compares (severities, gates, identifiers,
--     package names) is ASCII, and `lower`, `upper` and `strip` are those of ASCII texts.
--   * A float is NaN, an infinity or an exact multiple of a unit that its module names, which is small
--     enough for every constant of the source: 1/36,500,000 of a point in the security score, a
--     thousandth of a point in the weights, a hundred-thousandth in a probability. A score is in tenths,
--     since the source rounds to one decimal, with a tie to the even tenth. The error of binary
--     arithmetic below a unit is not modelled: near a tie, where it decides which tenth is next, a
--     score of the source can be a tenth away from that of the model. The EPSS floor of a gate is an exact decimal.
--   * A set of identities is the list of its distinct elements; a dictionary that only its keys
--     matter of is the list of them.
--   * Times are ticks of the monotonic clock, which the caller passes in. The limiter counts parts of a
--     token, a period's ticks to a token, so that a tick refills a whole number of them. Its lock makes
--     one pass of the loop in `acquire` a step; a wait is a fraction of ticks.
--   * A property that the source mutates is a field of a record that the function returns anew.
--   * An object's identity (`id`) is a number that the listing gives it.
--   * What Python's `ipaddress` answers of IPv6 addresses and of private ranges has changed between its
--     releases; it is a parameter of the network policy (`Library`), of which nothing is assumed. What
--     a name resolves to is an argument of each request.
--   * The ceilings of a policy are a function of the severity, since its reader refuses other keys.
--   * A Dockerfile is its lines, each with what ends it, as `splitlines` gives them. Each regular
--     expression is a function that follows it over the words of a line or its characters.
--   * What the parser of the rules on a Dockerfile reads is a list of directives with their lines, each
--     with the groups that its regular expression matched; for a `RUN` and an `ADD` also what further
--     expressions find in it. The walks of `_resolve_final_stage` run on fuel, one more than the stages:
--     a stage that is met again ends them.
--   * A saved run is a JSON value, in which a number is its truth and what `str` prints of it; what `str`
--     prints of a list or a dictionary is a parameter of the comparison, of which nothing is assumed.
--   * What YAML and pydantic read of an ignore file is an argument: an entry is there or its fields have
--     wrong types. A date is its ordinal, and what `isoformat` prints of it a parameter.
--   * A message for people (a problem, a note, an action) is a constructor with what it mentions.
--   * A time in a history is the text that `isoformat` gives.
--   * Loops are structural recursion over lists. The rounds of `_representative_order` run on fuel, the
--     number of the tags that are to be placed: each round before the last places one at least.
--   * The event loop runs one coroutine at a time, from one await to the next; each such stretch of
--     `SingleFlight.run` is one step, and so are the end of a task and its callback.
--
-- Not modelled: the texts that explain a decision, how filters are written on the command line, the storage of
-- measurements, the use cases and the command line, the templates of Dockerfiles, and the clients of
-- scanners and registries.
pub mod Prelude
pub mod Bases
pub mod Evidence
pub mod Scoring
pub mod Verdict
pub mod BuildPolicy
pub mod CrossValidation
pub mod Dockerfile
pub mod Exemptions
pub mod Gate
pub mod Resilience
pub mod Hardening
pub mod Network
pub mod Histories
pub mod Identity
pub mod Inheritance
pub mod Runs
pub mod Scanning
pub mod SingleFlight
pub mod Examples
